-- ===== src/Regex/Laws.antt =====
-- `fullmatch` decides the language of its pattern, which is given here without derivatives.
use landscape_openwrt.Base.{
  ℕ, ◌≡◌, refl, ◌↔◌, ◌⊎◌, inl, inr, true, [], ◌∷◌, ◌++◌, arith, Bool-cases, Text,
}
use landscape_openwrt.Regex.{
  Regex, never, empty, one_of, either, both, star, nullable, derivative, fullmatch,
}

-- A text cut into pieces, none of them empty, that all belong to `P`.
pub data Pieces (P : Text → Type 0) : Text → Type 0 where
  done : {s : Text} → s ≡ [] → Pieces P s
  piece : {s : Text} (c : ℕ) (t u : Text) → s ≡ c ∷ (t ++ u) → P (c ∷ t) → Pieces P u → Pieces P s

-- The language of a pattern.
abbrev pub Lang : Regex → Text → Type 0
Lang never s = ⊥
Lang empty s = s ≡ []
Lang (one_of p) s = (c : ℕ) × (p c ≡ true) × (s ≡ c ∷ [])
Lang (either a b) s = Lang a s ⊎ Lang b s
Lang (both a b) s = (t : Text) × (u : Text) × (s ≡ t ++ u) × Lang a t × Lang b u
Lang (star a) s = Pieces (Lang a) s

nullable-Lang : (r : Regex) → nullable r ≡ true → Lang r []
unfolding nullable
nullable-Lang never h = cc
nullable-Lang empty h = refl
nullable-Lang (one_of p) h = cc
nullable-Lang (either a b) h = elim (Bool-cases (nullable a)) [
  | inl e ↦ inl (nullable-Lang a e)
  | inr e ↦ inr (nullable-Lang b (ground arith))
]
nullable-Lang (both a b) h =
    ([], [], refl, nullable-Lang a (ground arith), nullable-Lang b (ground arith))
nullable-Lang (star a) h = done refl

Lang-nullable : (r : Regex) → Lang r [] → nullable r ≡ true
unfolding nullable
Lang-nullable never h = absurd h
Lang-nullable empty h = refl
Lang-nullable (one_of p) (c, _, e) = cc
Lang-nullable (either a b) (inl h) = ground (arith, Lang-nullable a h)
Lang-nullable (either a b) (inr h) = ground (arith, Lang-nullable b h)
Lang-nullable (both a b) ([], u, e, ha, hb) =
    ground (arith, Lang-nullable a ha, Lang-nullable b (rw (← e) at hb))
Lang-nullable (both a b) (c ∷ t, u, e, ha, hb) = cc
Lang-nullable (star a) h = refl

derivative-Lang : (c : ℕ) (r : Regex) (s : Text) → Lang (derivative c r) s → Lang r (c ∷ s)
unfolding derivative
derivative-Lang c never s h = absurd h
derivative-Lang c empty s h = absurd h
derivative-Lang c (one_of p) s h = elim (Bool-cases (p c)) [
  | inl e ↦ let h' : s ≡ [] = rw e at h in (c, e, rw h')
  | inr e ↦ let h' : ⊥ = rw e at h in absurd h'
]
derivative-Lang c (either a b) s (inl h) = inl (derivative-Lang c a s h)
derivative-Lang c (either a b) s (inr h) = inr (derivative-Lang c b s h)
derivative-Lang c (both a b) s h = elim (Bool-cases (nullable a)) [
  | inl e ↦
      let h' : Lang (either (both (derivative c a) b) (derivative c b)) s =
        rw (e, Lang, derivative) at h in
      elim h' [
        | inl (t, u, q, ha, hb) ↦ (c ∷ t, u, rw q, derivative-Lang c a t ha, hb)
        | inr hb ↦ ([], c ∷ s, refl, nullable-Lang a e, derivative-Lang c b s hb)
      ]
  | inr e ↦
      let h' : Lang (both (derivative c a) b) s = rw (e, Lang, derivative) at h in
      let (t, u, q, ha, hb) = h' in (c ∷ t, u, rw q, derivative-Lang c a t ha, hb)
]
derivative-Lang c (star a) s (t, u, e, ha, hs) = piece c t u (rw e) (derivative-Lang c a t ha) hs

Lang-derivative : (c : ℕ) (r : Regex) (s : Text) → Lang r (c ∷ s) → Lang (derivative c r) s
unfolding derivative
Lang-derivative c never s h = absurd h
Lang-derivative c empty s h = cc
Lang-derivative c (one_of p) s (d, e, q) =
    let same : c ≡ d = cc in let passes : p c ≡ true = rw same e in rw passes (cc)
Lang-derivative c (either a b) s (inl h) = inl (Lang-derivative c a s h)
Lang-derivative c (either a b) s (inr h) = inr (Lang-derivative c b s h)
Lang-derivative c (both a b) s ([], u, q, ha, hb) =
    let at_once : nullable a ≡ true = Lang-nullable a ha in
    rw (at_once, Lang, derivative) (inr (Lang-derivative c b s (rw q hb)))
Lang-derivative c (both a b) s (d ∷ t, u, q, ha, hb) =
    let same : c ≡ d = cc in
    let rest : ◌≡◌ {A = Text} s (t ++ u) = cc in
    let left : Lang (both (derivative c a) b) s =
      (t, u, rest, Lang-derivative c a t (rw same ha), hb) in
    elim (Bool-cases (nullable a)) [
      | inl e ↦ rw (e, Lang, derivative) (inl left)
      | inr e ↦ rw (e, Lang, derivative) left
    ]
Lang-derivative c (star a) s (done e) = cc
Lang-derivative c (star a) s (piece d t u e ha hs) =
    let same : c ≡ d = cc in (t, u, cc, Lang-derivative c a t (rw same ha), hs)

-- A text matches exactly when it belongs to the language of the pattern.
pub fullmatch_iff : (r : Regex) (s : Text) → (fullmatch r s ≡ true) ↔ Lang r s
unfolding fullmatch
fullmatch_iff r [] = (nullable-Lang r, Lang-nullable r)
fullmatch_iff r (c ∷ s) = (
  λ h. derivative-Lang c r s ((fullmatch_iff (derivative c r) s).0 h),
  λ h. (fullmatch_iff (derivative c r) s).1 (Lang-derivative c r s h),
)
