-- ===== src/Upstreams/Version/Keys.antt =====
-- A name that passes a version pattern has a version key.
use landscape_openwrt.Base.{
  ℕ, ◌+◌, ◌*◌, ◌≡◌, ◌≤◌, length, length-append, ltb, refl, ap, ◌∙◌, inl, inr, Bool, true, false,
  not, [], ◌∷◌, ◌++◌, arith, eqb, Option-cases, Text, all, codes, split_on, lstrip, onto_first, ok,
  each,
}
use landscape_openwrt.Regex.{fullmatch, literal}
use landscape_openwrt.Regex.Laws.{Lang, fullmatch_iff}
use landscape_openwrt.Regex.Shapes.{literal-eq, plus-all}
use landscape_openwrt.Platform.{Platform, IsLawful}
use landscape_openwrt.Upstreams.Version.{
  Key, is_decimal, digits_from, int_of, is_separator, version_key, digits, three_numbers,
  tag_pattern, max_digits,
}

split_on-onto :
    (p : ℕ → Bool) (c : ℕ) (s : Text)
    → p c ≡ false
    → split_on p (c ∷ s) ≡ onto_first c (split_on p s)
unfolding split_on
split_on-onto p c s h = rw h

split_on-separator :
    (p : ℕ → Bool) (c : ℕ) (s : Text) → p c ≡ true → split_on p (c ∷ s) ≡ [] ∷ split_on p s
unfolding split_on
split_on-separator p c s h = rw h

-- A piece with no separator in it, at the end of a text and in front of a separator.
split_on-piece : (p : ℕ → Bool) (w : Text) → all (λ c. not (p c)) w ≡ true → split_on p w ≡ w ∷ []
unfolding split_on
split_on-piece p [] h = refl
split_on-piece p (c ∷ w) h = rw (split_on-piece p w (ground arith)) (ground arith)

split_on-append :
    (p : ℕ → Bool) (w : Text) (c : ℕ) (s : Text)
    → all (λ d. not (p d)) w ≡ true
    → p c ≡ true
    → split_on p (w ++ c ∷ s) ≡ w ∷ split_on p s
split_on-append p [] c s h q = split_on-separator p c s q
split_on-append p (d ∷ w) c s h q =
    rw (split_on-onto p d (w ++ c ∷ s) (ground arith), split_on-append p w c s (ground arith) q)

module _ (py : Platform) (law : IsLawful py) where
  decimal-not_separator : (c : ℕ) → is_decimal py c ≡ true → is_separator c ≡ false
  decimal-not_separator c h =
      ground (arith, law.ascii_decimal b'-' (omega arith), law.ascii_decimal b'.' (omega arith))

  decimals-no_separator :
      (s : Text) → all (is_decimal py) s ≡ true → all (λ c. not (is_separator c)) s ≡ true
  decimals-no_separator [] h = refl
  decimals-no_separator (c ∷ s) h = ground (arith, decimal-not_separator c, decimals-no_separator s)

  digits_from-ok :
      (n : ℕ) (s : Text) → all (is_decimal py) s ≡ true → (m : ℕ) × (digits_from py n s ≡ ok m)
  unfolding digits_from
  digits_from-ok n [] h = (n, refl)
  digits_from-ok n (c ∷ s) h = elim (Option-cases (py.decimal c)) [
    | inl e ↦ ground arith
    | inr (d, e) ↦
        let (m, q) = digits_from-ok (n * 10 + d) s (ground arith) in (m, rw (e, digits_from) q)
  ]

  -- A text of numbers between separators.
  pub data Numbers : Text → Type 0 where
    last : {s : Text} → Lang (digits py) s → Numbers s
    next :
        {s : Text} (d : Text) (c : ℕ) (t : Text)
        → s ≡ d ++ c ∷ t
        → Lang (digits py) d
        → is_separator c ≡ true
        → Numbers t
        → Numbers s

  int_of-digits :
      (d : Text) → length d ≤ max_digits → Lang (digits py) d → (n : ℕ) × (int_of py d ≡ ok n)
  unfolding int_of
  int_of-digits d short h =
      let (c, t, e, a) = plus-all (is_decimal py) d h in
      let (n, q) = digits_from-ok 0 (c ∷ t) a in
      let fits : ltb max_digits (length (c ∷ t)) ≡ false =
        let short' : length (c ∷ t) ≤ max_digits = rw e at short in ground arith in
      (n, rw (e, fits) q)

  digits-no_separator : (d : Text) → Lang (digits py) d → all (λ c. not (is_separator c)) d ≡ true
  digits-no_separator d h =
      let (c, t, e, a) = plus-all (is_decimal py) d h in rw e (decimals-no_separator (c ∷ t) a)

  Numbers-each :
      (s : Text)
      → length s ≤ max_digits
      → Numbers s
      → (k : Key) × (each (int_of py) (split_on is_separator s) ≡ ok k)
  unfolding each
  Numbers-each s short (last h) =
      let (n, q) = int_of-digits s short h in
      (n ∷ [], rw (split_on-piece is_separator s (digits-no_separator s h), q))
  Numbers-each s short (next d c t e h q more) =
      let short' : length (d ++ c ∷ t) ≤ max_digits = rw e at short in
      let size = length-append d (c ∷ t) in
      let (n, v) = int_of-digits d (omega arith) h in
      let (k, w) = Numbers-each t (omega arith) more in
      (n ∷ k, rw (e, split_on-append is_separator d c t (digits-no_separator d h) q, v, w))

  next_literal :
      {s : Text} (d s1 p s2 : Text) (c : ℕ)
      → s ≡ d ++ s1
      → Lang (digits py) d
      → s1 ≡ p ++ s2
      → Lang (literal (c ∷ [])) p
      → is_separator c ≡ true
      → Numbers s2
      → Numbers s
  next_literal d s1 p s2 c e h f l q more =
      next d c s2
        (e ∙ ap (λ (u : Text). d ++ u) (f ∙ ap (λ (u : Text). u ++ s2) (literal-eq (c ∷ []) p l))) h
        q more

  Numbers-three : (s : Text) → Lang (three_numbers py) s → Numbers s
  Numbers-three s (d, s1, e1, h1, (p1, s2, e2, l1, (d2, s3, e3, h2, (p2, d3, e4, l2, h3)))) =
      next_literal d s1 p1 s2 b'.' e1 h1 e2 l1 refl
        (next_literal d2 s3 p2 d3 b'.' e3 h2 e4 l2 refl (last h3))

  -- A text that begins with a number is left alone by `lstrip("v")`.
  lstrip-digits : (s d t : Text) → s ≡ d ++ t → Lang (digits py) d → lstrip (eqb b'v') s ≡ s
  unfolding lstrip
  lstrip-digits s d t q h =
      let (c, u, e, a) = plus-all (is_decimal py) d h in
      rw (q, e) (ground (arith, law.ascii_decimal b'v' (omega arith)))

  lstrip-v : (s : Text) → lstrip (eqb b'v') (b'v' ∷ s) ≡ lstrip (eqb b'v') s
  unfolding lstrip
  lstrip-v s = refl

  -- Every name of the form `v1.2.3`, of at most 4300 characters, has a version key.
  pub version_key-tag :
      (s : Text)
      → length s ≤ max_digits
      → fullmatch (tag_pattern py) s ≡ true
      → (k : Key) × (version_key py s ≡ ok k)
  unfolding version_key
  version_key-tag s short m =
      let (p, u, e, l, h) = (fullmatch_iff (tag_pattern py) s).0 m in
      let short' : length (p ++ u) ≤ max_digits = rw e at short in
      let size = length-append p u in
      let (k, q) = Numbers-each u (omega arith) (Numbers-three u h) in
      (k, rw (e, literal-eq (codes "v") p l, lstrip-v u, lstrip-digits u h.0 h.1 h.2 h.3) q)
