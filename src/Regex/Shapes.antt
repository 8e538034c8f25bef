-- ===== src/Regex/Shapes.antt =====
-- The languages of the patterns that the program is built from: fixed texts, runs of a class.
use landscape_openwrt.Base.{
  ℕ, zero, suc, ◌≡◌, refl, ap, Bool, true, [], ◌∷◌, arith, eqb_iff, eqb_refl, Text, length, all,
}
use landscape_openwrt.Regex.{one_of, literal, plus, times}
use landscape_openwrt.Regex.Laws.{Lang, Pieces, done, piece}

pub Lang-literal : (t : Text) → Lang (literal t) t
unfolding literal
Lang-literal [] = refl
Lang-literal (c ∷ t) = (c ∷ [], t, refl, (c, eqb_refl c, refl), Lang-literal t)

pub literal-eq : (t s : Text) → Lang (literal t) s → s ≡ t
unfolding literal
literal-eq [] s h = h
literal-eq (c ∷ t) s (u, v, e, (d, q, r), h) =
    let same : c ≡ d = (eqb_iff c d).0 q in rw (e, r, literal-eq t v h, same)

module _ (p : ℕ → Bool) where
  pub Lang-times : (n : ℕ) (s : Text) → length s ≡ n → all p s ≡ true → Lang (times n (one_of p)) s
  unfolding times
  Lang-times zero [] e h = refl
  Lang-times zero (c ∷ s) e h = absurd (omega arith)
  Lang-times (suc n) [] e h = absurd (omega arith)
  Lang-times (suc n) (c ∷ s) e h =
      (c ∷ [], s, refl, (c, ground arith, refl), Lang-times n s (omega arith) (ground arith))

  pub times-all :
      (n : ℕ) (s : Text) → Lang (times n (one_of p)) s → (length s ≡ n) × (all p s ≡ true)
  unfolding times
  times-all zero s h = rw h (refl, refl)
  times-all (suc n) s (u, v, e, (d, q, r), h) =
      let (l, a) = times-all n v h in rw (e, r) (ap suc l, rw q a)

  pub Pieces-class : (s : Text) → all p s ≡ true → Pieces (Lang (one_of p)) s
  Pieces-class [] h = done refl
  Pieces-class (c ∷ s) h = piece c [] s refl (c, ground arith, refl) (Pieces-class s (ground arith))

  pub all-Pieces : (s : Text) → Pieces (Lang (one_of p)) s → all p s ≡ true
  all-Pieces s (done e) = rw e
  all-Pieces s (piece c t u e (d, q, r) more) =
      let c-eq : c ≡ d = cc in let t-eq : t ≡ [] = cc in rw (e, t-eq, c-eq, q) (all-Pieces u more)

  -- A run of one or more.
  pub Lang-plus : (c : ℕ) (s : Text) → all p (c ∷ s) ≡ true → Lang (plus (one_of p)) (c ∷ s)
  Lang-plus c s h = (c ∷ [], s, refl, (c, ground arith, refl), Pieces-class s (ground arith))

  pub plus-all :
      (s : Text)
      → Lang (plus (one_of p)) s
      → (c : ℕ) × (t : Text) × (s ≡ c ∷ t) × (all p (c ∷ t) ≡ true)
  plus-all s (u, v, e, (d, q, r), more) = (d, v, rw (e, r), rw q (all-Pieces v more))
