-- ===== src/Base/Keep.antt =====
-- What a comprehension with a condition keeps.
use mathlib.Core.Path.{◌≡◌, refl, subst}
use mathlib.Core.Logic.{◌↔◌, inl, inr}
use mathlib.Core.Bool.{Bool, true, false}
use mathlib.Core.List.{List, [], ◌∷◌}
use landscape_openwrt.Base.Lists.{All, In}
use landscape_openwrt.Base.Outcome.{Result, ok, keep, kept, >>=-eq-ok}

module _ {A : Type 0} (p : A → Result Bool) where
  -- The test returns.
  abbrev pub Decides : A → Type 0
  Decides x = (b : Bool) × (p x ≡ ok b)

  -- `ys` holds the items of `xs` that pass.
  abbrev pub AreKept : List A → List A → Type 0
  AreKept xs ys = (a : A) → In a ys ↔ (In a xs × (p a ≡ ok true))

  AreKept-kept :
      (x : A) (b : Bool) (xs ys : List A)
      → p x ≡ ok b
      → AreKept xs ys
      → AreKept (x ∷ xs) (kept b x ys)
  AreKept-kept x true xs ys e h a = (sound, complete)
    where
      sound : In a (x ∷ ys) → In a (x ∷ xs) × (p a ≡ ok true)
      sound (inl q) = (inl q, rw q e)
      sound (inr m) = (inr ((h a).0 m).0, ((h a).0 m).1)

      complete : In a (x ∷ xs) × (p a ≡ ok true) → In a (x ∷ ys)
      complete (inl q, t) = inl q
      complete (inr m, t) = inr ((h a).1 (m, t))
  AreKept-kept x false xs ys e h a = (sound, complete)
    where
      sound : In a ys → In a (x ∷ xs) × (p a ≡ ok true)
      sound m = (inr ((h a).0 m).0, ((h a).0 m).1)

      complete : In a (x ∷ xs) × (p a ≡ ok true) → In a ys
      complete (inl q, t) = cc
      complete (inr m, t) = (h a).1 (m, t)

  pub keep-AreKept :
      (xs : List A) → All Decides xs → (ys : List A) × (keep p xs ≡ ok ys) × AreKept xs ys
  unfolding keep
  keep-AreKept [] h = ([], refl, λ a. (λ m. absurd m, λ m. absurd m.0))
  keep-AreKept (x ∷ xs) ((b, e), h) =
      let (ys, q, k) = keep-AreKept xs h in (kept b x ys, rw (e, q), AreKept-kept x b xs ys e k)

  ok-inj : (xs ys : List A) → ok xs ≡ ok ys → xs ≡ ys
  ok-inj xs ys h = cc

  pub keep-eq-ok : (xs ys : List A) → keep p xs ≡ ok ys → AreKept xs ys
  unfolding keep
  keep-eq-ok [] ys h = subst (AreKept []) (ok-inj [] ys h) (λ a. (λ m. absurd m, λ m. absurd m.0))
  keep-eq-ok (x ∷ xs) ys h =
      let (b, e, h1) = >>=-eq-ok (p x) _ h in
      let (zs, f, h2) = >>=-eq-ok (keep p xs) _ h1 in
      subst (AreKept (x ∷ xs)) (ok-inj (kept b x zs) ys h2)
        (AreKept-kept x b xs zs e (keep-eq-ok xs zs f))
