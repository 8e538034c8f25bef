-- ===== src/Fixture/Address/Found.antt =====
-- What an address has that the wait returns, and that `verify` returns.
use landscape_openwrt.Base.{
  assert-true, ℕ, zero, suc, ◌+◌, ◌*◌, ◌≡◌, refl, sym, ap, ◌∙◌, inl, inr, true, Option, none, some,
  List, [], ◌∷◌, arith, ltb, Text, ◌==◌, ok, codes, In, assert,
}
use landscape_openwrt.Json.{Json, elements}
use landscape_openwrt.Action.{pure, lift, ◌>>=◌, ◌>>◌}
use landscape_openwrt.Action.Laws.{
  >>=-eq-ok, lift-eq-ok, Ensures, Ensures-bind, Ensures-then, Ensures-lift, Ensures-pure,
  Ensures-if,
}
use landscape_openwrt.Script.{
  Log, Script, Machine, sleep, second, load, int, read_file, under, note, printed,
}
use landscape_openwrt.Ip.{Ip}
use landscape_openwrt.Upstreams.Version.{text_at}
use landscape_openwrt.Fixture.{inside}
use landscape_openwrt.Fixture.Address.{
  is_candidate, accept_ra, scan_addresses, addresses_of, scan_interfaces, look, wait_rounds,
  wait_address, most_rounds, stage_prefix, stop_at, return_or, expect, verify, show_command,
  source_command,
}

module _ (m : Machine) (name : Text) where
  -- The container shows the entry: it stands under an interface of a list that was asked for.
  abbrev pub IsShown : Json → Type 0
  IsShown entry =
      (text : Text) × (u : Log) × (v : Log) × (shown : Json) × (interfaces : List Json)
      × (iface : Json) × (entries : List Json) × (inside m name show_command u ≡ (ok text, v))
      × (load m text ≡ ok shown)
      × (elements shown ≡ ok interfaces)
      × In iface interfaces
      × (addresses_of iface ≡ ok entries)
      × In entry entries

  -- The container shows an entry for the address that has the prefix, is still preferred, and is neither
  -- tentative nor a duplicate.
  abbrev pub IsPreferred : Text → Text → Type 0
  IsPreferred prefix local =
      (entry : Json) × IsShown entry
      × (is_candidate prefix entry ≡ ok true)
      × (text_at (codes "local") entry ≡ ok local)

  -- A request of the container to the target, whose answer is the address, as `ip` reads both.
  abbrev pub IsSource : {Net Addr : Type 0} → Ip Net Addr → Text → Type 0
  IsSource {Addr = Addr} ip address =
      (result : Text) × (u : Log) × (v : Log) × (seen : Addr) × (own : Addr) × (inside m name
          source_command u
        ≡ (ok result, v))
      × (ip.address result ≡ ok seen)
      × (ip.address address ≡ ok own)
      × (ip.same_address seen own ≡ true)

-- An entry with `Q` is a candidate and has the address that was found, if one was.
abbrev FoundIn : (Json → Type 0) → Text → Option Text → Type 0
FoundIn Q prefix none = Unit
FoundIn Q prefix (some local) =
    (entry : Json) × Q entry
    × (is_candidate prefix entry ≡ ok true)
    × (text_at (codes "local") entry ≡ ok local)

module _ (m : Machine) where
  read_file-eq :
      (path : Text) (log u : Log) (text : Text)
      → read_file m path log ≡ (ok text, u)
      → m.file log path ≡ some text
  unfolding read_file
  read_file-eq path log u text h = ground arith

  int-eq : (text : Text) (n : ℕ) → int m text ≡ ok n → m.read_int text ≡ some n
  int-eq text n h = ground arith

module _ (m : Machine) (name prefix : Text) where
  module _ (Q : Json → Type 0) where
    abbrev P : Option Text → Type 0
    P = FoundIn Q prefix

    scan_addresses-FoundIn :
        (list : List Json)
        → ((entry : Json) → In entry list → Q entry)
        → Ensures P (scan_addresses m name prefix list)
    unfolding scan_addresses
    scan_addresses-FoundIn [] q = Ensures-pure P none tt
    scan_addresses-FoundIn (entry ∷ more) q =
        let rest = scan_addresses-FoundIn more (λ e i. q e (inr i)) in
        Ensures-lift P (is_candidate prefix entry) _ λ candidate e.
          Ensures-if P candidate _ _
            (λ t. Ensures-bind P (accept_ra m name) _ λ setting _ _ _.
              Ensures-if P (setting == codes "2") _ _
                (λ _. Ensures-lift P (text_at (codes "local") entry) _ λ local f.
                  Ensures-pure P (some local) (entry, q entry (inl refl), e ∙ ap ok t, f))
                rest)
            rest

    stop_at-FoundIn :
        (found : Option Text) (rest : Script (Option Text))
        → P found
        → Ensures P rest
        → Ensures P (stop_at found rest)
    stop_at-FoundIn (some local) rest f k = Ensures-pure P (some local) f
    stop_at-FoundIn none rest f k = k

    scan_interfaces-FoundIn :
        (list : List Json)
        → ((iface : Json) (entries : List Json) (entry : Json)
            → In iface list
            → addresses_of iface ≡ ok entries
            → In entry entries
            → Q entry)
        → Ensures P (scan_interfaces m name prefix list)
    unfolding scan_interfaces
    scan_interfaces-FoundIn [] q = Ensures-pure P none tt
    scan_interfaces-FoundIn (iface ∷ more) q = Ensures-lift P (addresses_of iface) _ λ entries f.
        Ensures-bind P (scan_addresses m name prefix entries) _ λ found w u e.
          stop_at-FoundIn found _
            (scan_addresses-FoundIn entries (λ entry i. q iface entries entry (inl refl) f i) found
              w u e)
            (scan_interfaces-FoundIn more (λ x xs entry i. q x xs entry (inr i)))

  abbrev Found : Option Text → Type 0
  Found = FoundIn (IsShown m name) prefix

  abbrev Preferred : Text → Type 0
  Preferred = IsPreferred m name prefix

  look-FoundIn : Ensures Found (look m name prefix)
  unfolding look
  look-FoundIn = Ensures-bind Found (inside m name show_command) _ λ text u v e.
      Ensures-lift Found (load m text) _ λ shown f.
        Ensures-lift Found (elements shown) _ λ interfaces g.
          scan_interfaces-FoundIn (IsShown m name) interfaces λ iface entries entry i h j.
            (text, u, v, shown, interfaces, iface, entries, e, f, g, i, h, j)

  return_or-IsPreferred :
      (found : Option Text) (rest : Script Text)
      → Found found
      → Ensures Preferred rest
      → Ensures Preferred (return_or found rest)
  return_or-IsPreferred (some local) rest f k = Ensures-pure Preferred local f
  return_or-IsPreferred none rest f k = k

  wait_rounds-IsPreferred :
      (deadline rounds : ℕ) → Ensures Preferred (wait_rounds m name prefix deadline rounds)
  unfolding wait_rounds
  wait_rounds-IsPreferred deadline zero local w v h = cc
  wait_rounds-IsPreferred deadline (suc rounds) local w v h =
      Ensures-if Preferred (ltb (m.clock w) deadline) _ _
        (λ _. Ensures-bind Preferred (look m name prefix) _ λ found u t e.
          return_or-IsPreferred found _ (look-FoundIn found u t e) (
            Ensures-then Preferred (sleep m (2 * second)) _
              (wait_rounds-IsPreferred deadline rounds)))
        (λ _ _ _ q. cc) local w v h

module _ (m : Machine) (name : Text) where
  wait_address-IsPreferred :
      (stage : ℕ) → Ensures (IsPreferred m name (stage_prefix m stage)) (wait_address m name stage)
  unfolding wait_address
  wait_address-IsPreferred stage local w v h =
      wait_rounds-IsPreferred m name (stage_prefix m stage) (m.clock w + 45 * second) most_rounds
        local w v h

  module _ {Net Addr : Type 0} (ip : Ip Net Addr) (root : Text) where
    -- The stage is the one that the file names at the start, the address is preferred in its prefix,
    -- and the target saw a request come from it.
    abbrev pub IsVerified : Log → Text → Type 0
    IsVerified log address =
        (text : Text) × (stage : ℕ) × (m.file log (under root (codes "prefix-stage")) ≡ some text)
        × (m.read_int text ≡ some stage)
        × IsPreferred m name (stage_prefix m stage) address
        × IsSource m name ip address

    -- The last that was done is a request of the container to the target, whose answer is the address,
    -- and the message about it.
    abbrev pub IsLastSource : Text → Log → Type 0
    IsLastSource address after =
        (result : Text) × (message : Text) × (u : Log) × (v : Log) × (seen : Addr) × (own : Addr)
        × (inside m name source_command u ≡ (ok result, v))
        × (ip.address result ≡ ok seen)
        × (ip.address address ≡ ok own)
        × (ip.same_address seen own ≡ true)
        × (after ≡ printed message ∷ v)

    ends-IsLastSource :
        (address found message : Text) (log after : Log)
        → (do
          result ← inside m name source_command
          seen ← lift (ip.address result)
          own ← lift (ip.address found)
          lift (assert (ip.same_address seen own) [])
          note (printed message)
          pure found)
            log
          ≡ (ok address, after)
        → IsLastSource address after
    ends-IsLastSource address found message log after h =
        let (result, v, asked, h1) = >>=-eq-ok (inside m name source_command) _ log h in
        let (seen, v1, p, h2) = >>=-eq-ok (lift (ip.address result)) _ v h1 in
        let (own, v2, o, h3) = >>=-eq-ok (lift (ip.address found)) _ v1 h2 in
        let (_, v3, s, h4) = >>=-eq-ok (lift (assert (ip.same_address seen own) [])) _ v2 h3 in
        let (p', pv) = lift-eq-ok (ip.address result) v p in
        let (o', ov) = lift-eq-ok (ip.address found) v1 o in
        let (s', sv) = lift-eq-ok (assert (ip.same_address seen own) []) v2 s in
        let same : found ≡ address = cc in
        let last : after ≡ printed message ∷ v3 = cc in
        (
          result,
          message,
          log,
          v,
          seen,
          own,
          asked,
          p',
          rw (← same) o',
          assert-true (ip.same_address seen own) [] s',
          last ∙ ap (λ (l : Log). printed message ∷ l) (sym (pv ∙ ov ∙ sv)),
        )

    pub verify-IsLastSource :
        (address : Text) (log after : Log)
        → verify m name ip root log ≡ (ok address, after)
        → IsLastSource address after
    unfolding verify
    verify-IsLastSource address log after h =
        let (text, w1, _, h1) =
          >>=-eq-ok (read_file m (under root (codes "prefix-stage"))) _ log h in
        let (stage, w2, _, h2) = >>=-eq-ok (lift (int m text)) _ w1 h1 in
        let (found, w3, _, h3) = >>=-eq-ok (wait_address m name stage) _ w2 h2 in
        let (_, w4, _, h4) = >>=-eq-ok (expect m name _ _) _ w3 h3 in
        let (_, w5, _, h5) = >>=-eq-ok (expect m name _ _) _ w4 h4 in
        let (_, w6, _, h6) = >>=-eq-ok (expect m name _ _) _ w5 h5 in
        ends-IsLastSource address found _ w6 after h6

    -- An address that `verify` returns is preferred in the prefix of the stage that the file names, and
    -- the address from which the target saw a request come.
    pub verify-IsVerified :
        (address : Text) (log after : Log)
        → verify m name ip root log ≡ (ok address, after)
        → IsVerified log address
    unfolding verify
    verify-IsVerified address log after h =
        let P = IsVerified log in
        let (text, u, e, q) = >>=-eq-ok (read_file m (under root (codes "prefix-stage"))) _ log h in
        Ensures-lift P (int m text) _
          (λ stage f. Ensures-bind P (wait_address m name stage) _ λ found w v g.
            Ensures-then P (expect m name _ _) _ (
              Ensures-then P (expect m name _ _) _ (
                Ensures-then P (expect m name _ _) _ (
                  Ensures-bind P (inside m name source_command) _ λ result x y asked.
                    Ensures-lift P (ip.address result) _ λ seen p.
                      Ensures-lift P (ip.address found) _ λ own o.
                        Ensures-lift P (assert (ip.same_address seen own) []) _ λ _ same.
                          Ensures-then P (note (printed _)) _ (
                            Ensures-pure P found (
                              text,
                              stage,
                              read_file-eq m (under root (codes "prefix-stage")) log u text e,
                              int-eq m text stage f,
                              wait_address-IsPreferred stage found w v g,
                              (
                                result,
                                x,
                                y,
                                seen,
                                own,
                                asked,
                                p,
                                o,
                                assert-true (ip.same_address seen own) [] same,
                              ),
                            ))))))
          address u after q
