-- ===== src/Base/Lists.antt =====
-- Lists measured by native numbers, Boolean filters and predicates on every item.
use Prim.Native.Nat.{ℕ, suc, ◌+◌}
use mathlib.Core.Path.{◌≡◌, refl}
use mathlib.Core.Logic.{◌↔◌, ◌⊎◌, inl, inr}
use mathlib.Core.Bool.{Bool, true, ◌&&◌}
use mathlib.Core.List.{List, [], ◌∷◌, ◌++◌}
use native.Mathlib.Omega.{arith}
use landscape_openwrt.Base.Tests.{if◌then◌else◌}

module _ {ℓ} {A : Type ℓ} where
  abbrev pub length : List A → ℕ
  length [] = 0
  length (x ∷ xs) = suc (length xs)

  -- A list comprehension with one condition.
  abbrev pub keep_if : (A → Bool) → List A → List A
  keep_if p [] = []
  keep_if p (x ∷ xs) = let rest = keep_if p xs in if p x then x ∷ rest else rest

  abbrev pub all : (A → Bool) → List A → Bool
  all p [] = true
  all p (x ∷ xs) = p x && all p xs

  pub length-append : (xs ys : List A) → length (xs ++ ys) ≡ length xs + length ys
  length-append [] ys = omega arith
  length-append (x ∷ xs) ys = omega (arith, length-append xs ys)

module _ {ℓ κ} {A : Type ℓ} where
  -- Every item has the property.
  abbrev pub All : (A → Type κ) → List A → Type κ
  All P [] = Unit
  All P (x ∷ xs) = P x × All P xs

module _ {A : Type 0} where
  -- The item stands in the list.
  abbrev pub In : A → List A → Type 0
  In a [] = ⊥
  In a (x ∷ xs) = (a ≡ x) ⊎ In a xs

  In-of_keep_if :
      (p : A → Bool) (a : A) (xs : List A) → In a (keep_if p xs) → In a xs × (p a ≡ true)
  In-of_keep_if p a (x ∷ xs) h = ground (arith, In-of_keep_if p a xs)
  In-of_keep_if p a [] h = absurd h

  keep_if_of_In : (p : A → Bool) (a : A) (xs : List A) → In a xs → p a ≡ true → In a (keep_if p xs)
  keep_if_of_In p a [] h e = h
  keep_if_of_In p a (x ∷ xs) h e = ground (arith, keep_if_of_In p a xs)

  pub In-keep_if :
      (p : A → Bool) (a : A) (xs : List A) → In a (keep_if p xs) ↔ (In a xs × (p a ≡ true))
  In-keep_if p a xs = (In-of_keep_if p a xs, λ h. keep_if_of_In p a xs h.0 h.1)

  pub All-of_forall : (P : A → Type 0) (xs : List A) → ((a : A) → In a xs → P a) → All P xs
  All-of_forall P [] h = tt
  All-of_forall P (x ∷ xs) h = (h x (inl refl), All-of_forall P xs (λ a m. h a (inr m)))

  pub All-In : (P : A → Type 0) (a : A) (xs : List A) → All P xs → In a xs → P a
  All-In P a (x ∷ xs) h (inl e) = rw e h.0
  All-In P a (x ∷ xs) h (inr m) = All-In P a xs h.1 m
  All-In P a [] h m = absurd m

pub In-of_append : {A : Type 0} (a : A) (xs ys : List A) → In a (xs ++ ys) → In a xs ⊎ In a ys
In-of_append a [] ys h = inr h
In-of_append a (x ∷ xs) ys h = ground (arith, In-of_append a xs ys)

pub In-of_left : {A : Type 0} (a : A) (xs ys : List A) → In a xs → In a (xs ++ ys)
In-of_left a [] ys h = absurd h
In-of_left a (x ∷ xs) ys h = ground (arith, In-of_left a xs ys)

pub In-of_right : {A : Type 0} (a : A) (xs ys : List A) → In a ys → In a (xs ++ ys)
In-of_right a [] ys h = h
In-of_right a (x ∷ xs) ys h = inr (In-of_right a xs ys h)
