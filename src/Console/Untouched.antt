-- ===== src/Console/Untouched.antt =====
-- What a check that passes says of the terminals.
use landscape_openwrt.Base.{
  ok-inj, ℕ, ◌+◌, ◌≡◌, refl, ap, subst, sym, ◌∙◌, Bool, true, false, Option, some, List, arith,
  ◌==◌, Text, Result, ok,
}
use landscape_openwrt.Base.Dict
use landscape_openwrt.Json.{Json, index, elements, truthy, to_list, to_dict}
use landscape_openwrt.Action.{lift}
use landscape_openwrt.Action.Laws.{>>=-eq-ok, lift-eq-ok}
use landscape_openwrt.Script.{Log, Machine, load}
use landscape_openwrt.Console.{status_of}
use landscape_openwrt.Console.Serve.{
  size_of, count, Probe, status_now, round, pass, signal, Reach, here, next, begin,
}
use landscape_openwrt.Console.Check.{stream_of, check_status, check}

module _ (Attr : Type 0) (same : Attr → Attr → Bool) where
  -- The bytes that were read of the terminals on the way.
  unfoldable pub arrived : (s t : Probe Attr same) → Reach Attr same s t → ℕ
  arrived s t here = 0
  arrived s t (next r (pass u bytes client h)) = arrived s u r + (size_of bytes.0 + size_of bytes.1)
  arrived s t (next r (signal u)) = arrived s u r

  -- The two counts add up to the bytes that were read, and the attributes to compare with stay those of
  -- the start.
  Reach-arrived :
      (s t : Probe Attr same) (r : Reach Attr same s t)
      → (t.received.0 + t.received.1 ≡ s.received.0 + s.received.1 + arrived s t r)
        × (t.attributes ≡ s.attributes)
  unfolding arrived round
  Reach-arrived s t here = (omega arith, refl)
  Reach-arrived s t (next r (pass u bytes client h)) =
      let (e, kept) = Reach-arrived s u r in (omega (arith, e), kept)
  Reach-arrived s t (next r (signal u)) = Reach-arrived s u r

check_status-eq-ok :
    (received : ℕ × ℕ) (unchanged : Bool × Bool)
    → check_status (status_of received unchanged) ≡ ok tt
    → (received.0 + received.1 ≡ 0) × (unchanged.0 ≡ true) × (unchanged.1 ≡ true)
unfolding index elements truthy to_list to_dict ◌==◌ Dict.lookup
check_status-eq-ok (a, b) (c, d) h = ground arith

-- A check that passes has read a status that is accepted.
check-status :
    (m : Machine) (receive : Log → Result (List Text)) (name : Option Text) (log after : Log)
    (chunks : List Text) (status : Json)
    → receive log ≡ ok chunks
    → m.loads (stream_of chunks) ≡ some status
    → check m receive name log ≡ (ok tt, after)
    → check_status status ≡ ok tt
unfolding check
check-status m receive name log after chunks status got read h =
    let (cs, u, e, q) = >>=-eq-ok (λ log. lift (receive log) log) _ log h in
    let same : cs ≡ chunks = ok-inj cs chunks (sym (lift-eq-ok (receive log) log e).0 ∙ got) in
    let (st, u2, e2, q2) = >>=-eq-ok (lift (load m (stream_of cs))) _ u q in
    let loaded : load m (stream_of cs) ≡ ok status = rw same (rw (read, load) refl) in
    let found : st ≡ status =
      ok-inj st status (sym (lift-eq-ok (load m (stream_of cs)) u e2).0 ∙ loaded) in
    let (_, u3, e3, _) = >>=-eq-ok (lift (check_status st)) _ u2 q2 in
    subst (λ (j : Json). check_status j ≡ ok tt) found (lift-eq-ok (check_status st) u2 e3).0

-- If a client reads back the status that a round of the loop sends, and its check passes, then nothing
-- was read of the terminals since the start, that round included, and their attributes are those of
-- the start.
pub check-untouched :
    (m : Machine) (receive : Log → Result (List Text)) (name : Option Text) (Attr : Type 0)
    (same : Attr → Attr → Bool) (first now : Attr × Attr) (s : Probe Attr same)
    (bytes : Option Text × Option Text) (log after : Log) (chunks : List Text)
    (before : Reach Attr same (begin Attr same first) s) (running : s.stopping ≡ false)
    → receive log ≡ ok chunks
    → m.loads (stream_of chunks)
      ≡ some (status_now Attr same (record s { received = count s.received bytes }) now)
    → check m receive name log ≡ (ok tt, after)
    → (arrived Attr same
          (begin Attr same first)
          (round Attr same bytes (some now) s)
          (next before (pass s bytes (some now) running))
        ≡ 0)
      × (same now.0 first.0 ≡ true)
      × (same now.1 first.1 ≡ true)
unfolding arrived
check-untouched m receive name Attr same first now s bytes log after chunks before running got read
      h =
    let (total, kept) = Reach-arrived Attr same (begin Attr same first) s before in
    let status = status_now Attr same (record s { received = count s.received bytes }) now in
    let accepted = check-status m receive name log after chunks status got read h in
    let (zeros, first_same, second_same) =
      check_status-eq-ok (count s.received bytes)
        (same now.0 s.attributes.0, same now.1 s.attributes.1) accepted in
    (
      omega (arith, zeros, total),
      ap (λ (a : Attr × Attr). same now.0 a.0) (sym kept) ∙ first_same,
      ap (λ (a : Attr × Attr). same now.1 a.1) (sym kept) ∙ second_same,
    )
