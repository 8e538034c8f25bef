-- ===== src/Upstreams/State/Signals.antt =====
-- What triggers a rebuild.
use landscape_openwrt.Base.{
  ◌≡◌, refl, sym, ap, ◌∙◌, ◌↔◌, true, false, some, List, [], ◌∷◌, All, Text, ◌==◌, ==_iff, ==_refl,
  ok, >>=-eq-ok,
}
use landscape_openwrt.Base.Dict
use landscape_openwrt.Base.Dict.{Dict, lookup-insert}
use landscape_openwrt.Json.{Json, str, obj, of_dict, index-of_dict, index, get}
use landscape_openwrt.Platform.{Platform}
use landscape_openwrt.Upstreams.Digest.{digest_of}
use landscape_openwrt.Upstreams.Version.{text_at}
use landscape_openwrt.Upstreams.Registry.{is_text}
use landscape_openwrt.Upstreams.State.{
  signals, select_keys, inputs_digest, same_inputs, digest_label, digest_key,
}

-- Two states agree on a key, in its value or in the exception for its absence.
abbrev pub AgreeOn : Json → Json → Text → Type 0
AgreeOn s t key = index s key ≡ index t key

select_keys-eq :
    (s t : Json) (keys : List Text)
    → All (AgreeOn s t) keys
    → select_keys s keys ≡ select_keys t keys
unfolding select_keys
select_keys-eq s t [] h = refl
select_keys-eq s t (key ∷ keys) (e, h) = rw (e, select_keys-eq s t keys h)

select_keys-cons :
    (s : Json) (key : Text) (keys : List Text) {d : Dict Json}
    → select_keys s (key ∷ keys) ≡ ok d
    → (v : Json) × (rest : Dict Json) × (index s key ≡ ok v)
      × (select_keys s keys ≡ ok rest)
      × (d ≡ (key, v) ∷ rest)
unfolding select_keys
select_keys-cons s key keys p =
    let (v, e, p') = >>=-eq-ok (index s key) _ p in
    let (rest, f, p'') = >>=-eq-ok (select_keys s keys) _ p' in (v, rest, e, f, cc)

select_keys-agree :
    (s t : Json) (keys : List Text) (c d : Dict Json)
    → select_keys s keys ≡ ok c
    → select_keys t keys ≡ ok d
    → c ≡ d
    → All (AgreeOn s t) keys
select_keys-agree s t [] c d p q same = tt
select_keys-agree s t (key ∷ keys) c d p q same =
    let (v, rest, e, f, g) = select_keys-cons s key keys p in
    let (v', rest', e', f', g') = select_keys-cons t key keys q in
    let both : (key, v) ∷ rest ≡ (key, v') ∷ rest' = sym g ∙ same ∙ g' in
    let v-eq : v ≡ v' = cc in
    let rest-eq : rest ≡ rest' = cc in
    (e ∙ ap ok v-eq ∙ sym e', select_keys-agree s t keys rest rest' f f' rest-eq)

module _ (py : Platform) where
  -- The digest that two sets of signals would share.
  abbrev pub signal_digest : Dict Json → Text
  signal_digest base = digest_of py (py.encode (py.dumps_sorted base))

  -- States that agree on the five monitored signals have the same inputs digest, whatever else
  -- differs between them: content hashes, URLs, versions of packages, the time.
  pub inputs_digest-eq :
      (s t : Json) → All (AgreeOn s t) signals → inputs_digest py s ≡ inputs_digest py t
  unfolding inputs_digest
  inputs_digest-eq s t h = rw (select_keys-eq s t signals h)

  inputs_digest-inv :
      (s : Json) {d : Text}
      → inputs_digest py s ≡ ok d
      → (base : Dict Json) × (select_keys s signals ≡ ok base) × (d ≡ signal_digest base)
  unfolding inputs_digest
  inputs_digest-inv s p = let (base, e, q) = >>=-eq-ok (select_keys s signals) _ p in (base, e, cc)

  -- The published labels hold the digest of an earlier state, and the new state its own digest. If
  -- the SHA-256 digests of their signals do not collide, the inputs count as the same exactly if the
  -- two states agree on the five signals.
  pub same_inputs_iff :
      (old new labels : Json) (old_digest new_digest : Text)
      → inputs_digest py old ≡ ok old_digest
      → inputs_digest py new ≡ ok new_digest
      → get labels digest_label ≡ ok (some (str old_digest))
      → text_at digest_key new ≡ ok new_digest
      → ((a b : Dict Json)
          → select_keys old signals ≡ ok a
          → select_keys new signals ≡ ok b
          → signal_digest a ≡ signal_digest b
          → a ≡ b)
      → (same_inputs labels new ≡ ok true) ↔ All (AgreeOn old new) signals
  unfolding same_inputs is_text
  same_inputs_iff old new labels old_digest new_digest p q label sealed no_collision =
      (sound, complete)
    where
      sound : same_inputs labels new ≡ ok true → All (AgreeOn old new) signals
      sound h =
          let (a, e, f) = inputs_digest-inv old p in
          let (b, e', f') = inputs_digest-inv new q in
          let h' : ok (old_digest == new_digest) ≡ ok true = rw (label, sealed) at h in
          let same : old_digest ≡ new_digest = (==_iff old_digest new_digest).0 (cc) in
          select_keys-agree old new signals a b e e' (no_collision a b e e' (sym f ∙ same ∙ f'))

      complete : All (AgreeOn old new) signals → same_inputs labels new ≡ ok true
      complete h =
          let d : ok old_digest ≡ ok new_digest = sym p ∙ inputs_digest-eq old new h ∙ q in
          let same : old_digest ≡ new_digest = cc in rw (label, sealed, same, ==_refl)

-- Changing or adding a field that is none of the signals leaves every signal alone.
AgreeOn-insert :
    (key : Text) (v : Json) (d : Dict Json) (keys : List Text)
    → All (λ k. (key == k) ≡ false) keys
    → All (AgreeOn (obj (of_dict (Dict.insert key v d))) (obj (of_dict d))) keys
AgreeOn-insert key v d [] h = tt
AgreeOn-insert key v d (k ∷ keys) (e, h) =
    (rw (index-of_dict, index-of_dict, lookup-insert, e), AgreeOn-insert key v d keys h)

-- Changing or adding a field that is none of the five signals keeps the inputs digest.
pub inputs_digest-insert :
    (py : Platform) (key : Text) (v : Json) (d : Dict Json)
    → All (λ k. (key == k) ≡ false) signals
    → inputs_digest py (obj (of_dict (Dict.insert key v d))) ≡ inputs_digest py (obj (of_dict d))
inputs_digest-insert py key v d h =
    inputs_digest-eq py (obj (of_dict (Dict.insert key v d))) (obj (of_dict d))
      (AgreeOn-insert key v d signals h)
