-- ===== src/Upstreams/Version/Order.antt =====
-- The order of version keys is total, and `max_from` finds a greatest item.
use landscape_openwrt.Base.{
  ◌≡◌, refl, ap, sym, ◌∙◌, Bool, ◌⊎◌, inl, inr, true, false, List, [], ◌∷◌, arith, Bool-cases, In,
  All, if◌then◌else◌,
}
use landscape_openwrt.Upstreams.Version.{Key, key_lt, max_from}

pub key_lt_irrefl : (a : Key) → key_lt a a ≡ false
unfolding key_lt
key_lt_irrefl [] = refl
key_lt_irrefl (x ∷ a) = ground (arith, key_lt_irrefl a)

pub key_lt_asymm : (a b : Key) → key_lt a b ≡ true → key_lt b a ≡ false
unfolding key_lt
key_lt_asymm [] [] h = cc
key_lt_asymm [] (y ∷ b) h = refl
key_lt_asymm (x ∷ a) [] h = cc
key_lt_asymm (x ∷ a) (y ∷ b) h = ground (arith, key_lt_asymm a b)

-- Not less is transitive.
pub key_ge_trans : (a b c : Key) → key_lt a b ≡ false → key_lt b c ≡ false → key_lt a c ≡ false
unfolding key_lt
key_ge_trans [] [] c h k = k
key_ge_trans [] (y ∷ b) c h k = cc
key_ge_trans (x ∷ a) b [] h k = refl
key_ge_trans (x ∷ a) [] (z ∷ c) h k = cc
key_ge_trans (x ∷ a) (y ∷ b) (z ∷ c) h k = ground (arith, key_ge_trans a b c)

-- Keys of which neither is less are the same.
pub key_lt_trichotomy : (a b : Key) → key_lt a b ≡ false → key_lt b a ≡ false → a ≡ b
unfolding key_lt
key_lt_trichotomy [] [] h k = refl
key_lt_trichotomy [] (y ∷ b) h k = cc
key_lt_trichotomy (x ∷ a) [] h k = cc
key_lt_trichotomy (x ∷ a) (y ∷ b) h k = ground (arith, key_lt_trichotomy a b)

-- Not being less is transitive, and keys of which neither is less are the same: the order of version
-- keys is total.
pub key_lt-IsTotal :
    ((a b c : Key) → key_lt a b ≡ false → key_lt b c ≡ false → key_lt a c ≡ false)
    × ((a b : Key) → key_lt a b ≡ false → key_lt b a ≡ false → a ≡ b)
key_lt-IsTotal = (key_ge_trans, key_lt_trichotomy)

module _ {A : Type 0} where
  max_from-greater :
      (best x : Key × A) (items : List (Key × A))
      → key_lt best.0 x.0 ≡ true
      → max_from best (x ∷ items) ≡ max_from x items
  unfolding max_from
  max_from-greater best x items e = ap (λ (b : Bool). max_from (if b then x else best) items) e

  max_from-not_greater :
      (best x : Key × A) (items : List (Key × A))
      → key_lt best.0 x.0 ≡ false
      → max_from best (x ∷ items) ≡ max_from best items
  unfolding max_from
  max_from-not_greater best x items e = ap (λ (b : Bool). max_from (if b then x else best) items) e

  max_from-nil : (best : Key × A) → max_from best [] ≡ best
  unfolding max_from
  max_from-nil best = refl

  -- The cases of a step, the result being a variable.
  max_from-step :
      (best x r : Key × A) (items : List (Key × A))
      → max_from best (x ∷ items) ≡ r
      → ((key_lt best.0 x.0 ≡ true) × (max_from x items ≡ r))
        ⊎ ((key_lt best.0 x.0 ≡ false) × (max_from best items ≡ r))
  max_from-step best x r items e = elim (Bool-cases (key_lt best.0 x.0)) [
    | inl g ↦ inl (g, sym (max_from-greater best x items g) ∙ e)
    | inr g ↦ inr (g, sym (max_from-not_greater best x items g) ∙ e)
  ]

  pub max_from-ge_first :
      (best r : Key × A) (items : List (Key × A))
      → max_from best items ≡ r
      → key_lt r.0 best.0 ≡ false
  max_from-ge_first best r [] e =
      let same : best ≡ r = sym (max_from-nil best) ∙ e in rw same (key_lt_irrefl r.0)
  max_from-ge_first best r (x ∷ items) e = elim (max_from-step best x r items e) [
    | inl (g, q) ↦
        key_ge_trans r.0 x.0 best.0 (max_from-ge_first x r items q) (key_lt_asymm best.0 x.0 g)
    | inr (g, q) ↦ max_from-ge_first best r items q
  ]

  -- The result is the first item or another one.
  pub max_from-In :
      (best r : Key × A) (items : List (Key × A)) → max_from best items ≡ r → In r (best ∷ items)
  max_from-In best r [] e = inl (sym e ∙ max_from-nil best)
  max_from-In best r (x ∷ items) e = elim (max_from-step best x r items e) [
    | inl (g, q) ↦ inr (max_from-In x r items q)
    | inr (g, q) ↦ elim (max_from-In best r items q) [ inl s ↦ inl s | inr m ↦ inr (inr m) ]
  ]

  -- No item has a greater key than the result.
  pub max_from-ge :
      (best r : Key × A) (items : List (Key × A))
      → max_from best items ≡ r
      → All (λ x. key_lt r.0 x.0 ≡ false) (best ∷ items)
  max_from-ge best r [] e = (max_from-ge_first best r [] e, tt)
  max_from-ge best r (x ∷ items) e = elim (max_from-step best x r items e) [
    | inl (g, q) ↦ (max_from-ge_first best r (x ∷ items) e, max_from-ge x r items q)
    | inr (g, q) ↦
        let (b, more) = max_from-ge best r items q in (b, (key_ge_trans r.0 best.0 x.0 b g, more))
  ]
