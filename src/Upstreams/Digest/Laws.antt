-- ===== src/Upstreams/Digest/Laws.antt =====
-- A download passes exactly if its digest is the expected one.
use landscape_openwrt.Base.{
  ◌++◌, ◌≡◌, refl, sym, ap, ◌∙◌, ◌↔◌, true, false, [], ◌∷◌, arith, if◌then◌else◌, Text, Bytes,
  codes, ◌==◌, ==_iff, ==_refl, ok, raise, value_error, digest_mismatch, Bool-cases, inl, inr,
}
use landscape_openwrt.Regex.{fullmatch, literal}
use landscape_openwrt.Regex.Laws.{fullmatch_iff}
use landscape_openwrt.Regex.Shapes.{Lang-literal, Lang-times}
use landscape_openwrt.Json.{Json, null, bool, num, str, arr, obj, nil, cons, end, field}
use landscape_openwrt.Platform.{Platform, IsLawful, is_hex}
use landscape_openwrt.Upstreams.Digest.{sha256_pattern, digest_of, verify_digest}

empty_refused : fullmatch sha256_pattern [] ≡ false
unfolding fullmatch literal
empty_refused = refl

module _ (py : Platform) (law : IsLawful py) (b : Bytes) where
  pub digest_of-matches : fullmatch sha256_pattern (digest_of py b) ≡ true
  unfolding digest_of
  digest_of-matches = (fullmatch_iff sha256_pattern (digest_of py b)).1 (
    codes "sha256:",
    py.hexdigest b,
    refl,
    Lang-literal (codes "sha256:"),
    Lang-times is_hex 64 (py.hexdigest b) (law.digest_length b) (law.digest_hex b),
  )

  digest_of-ne-nil : (digest_of py b == []) ≡ false
  unfolding digest_of ◌==◌
  digest_of-ne-nil = refl

  -- Content is accepted exactly if the expected text is its own SHA-256 digest; any other text, the
  -- empty one included, is a digest mismatch.
  pub verify_digest-str :
      (wanted : Text)
      → verify_digest py b (str wanted)
        ≡ (if digest_of py b == wanted then ok tt else raise (value_error digest_mismatch))
  unfolding verify_digest
  verify_digest-str [] = ground (arith, digest_of-ne-nil)
  verify_digest-str (c ∷ wanted) = elim (Bool-cases (digest_of py b == (c ∷ wanted))) [
    | inl e ↦
        let same : digest_of py b ≡ c ∷ wanted = (==_iff _ _).0 e in
        let m : fullmatch sha256_pattern (c ∷ wanted) ≡ true = rw same at digest_of-matches in
        rw (e, m)
    | inr e ↦ rw e (ground arith)
  ]

  eq_of_verify_digest :
      (expected : Json) → verify_digest py b expected ≡ ok tt → expected ≡ str (digest_of py b)
  unfolding verify_digest
  eq_of_verify_digest (str s) h =
      let h' : (if digest_of py b == s then ok tt else raise (value_error digest_mismatch))
          ≡ ok tt =
        sym (verify_digest-str s) ∙ h in
      ap str (sym ((==_iff _ _).0 (ground arith)))
  eq_of_verify_digest (bool true) h = cc
  eq_of_verify_digest (bool false) h = ground (arith, empty_refused)
  eq_of_verify_digest (num n) h = ground (arith, empty_refused)
  eq_of_verify_digest null h = ground (arith, empty_refused)
  eq_of_verify_digest (arr nil) h = ground (arith, empty_refused)
  eq_of_verify_digest (arr (cons j js)) h = cc
  eq_of_verify_digest (obj end) h = ground (arith, empty_refused)
  eq_of_verify_digest (obj (field k v fs)) h = cc

  -- Whatever the expected value is, content passes exactly if that value is its digest.
  pub verify_digest-eq-ok :
      (expected : Json) → (verify_digest py b expected ≡ ok tt) ↔ (expected ≡ str (digest_of py b))
  verify_digest-eq-ok expected =
      (eq_of_verify_digest expected, λ e. rw (e, verify_digest-str, ==_refl))

  -- Content that passes has the digest that was written out with the name of the algorithm.
  pub verify_digest-labelled :
      (sum : Text)
      → verify_digest py b (str (codes "sha256:" ++ sum)) ≡ ok tt
      → digest_of py b ≡ codes "sha256:" ++ sum
  verify_digest-labelled sum h =
      ground (arith, (verify_digest-eq-ok (str (codes "sha256:" ++ sum))).0 h)
