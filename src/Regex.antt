-- ===== src/Regex.antt =====
-- The part of Python's `re` that the program uses: a pattern is a tree, and `fullmatch` decides by
-- derivatives whether a whole text belongs to it.
pub mod Laws
pub mod Shapes
use landscape_openwrt.Base.{ℕ, zero, suc, Bool, true, false, ◌&&◌, ◌||◌, List, [], ◌∷◌, eqb, Text}

pub data Regex : Type 0 where
  never empty : Regex
  one_of : (ℕ → Bool) → Regex
  either : Regex → Regex → Regex
  both : Regex → Regex → Regex
  star : Regex → Regex

unfoldable pub nullable : Regex → Bool
nullable never = false
nullable empty = true
nullable (one_of p) = false
nullable (either a b) = nullable a || nullable b
nullable (both a b) = nullable a && nullable b
nullable (star a) = true

-- The texts that a pattern allows behind a first character.
unfoldable pub derivative : ℕ → Regex → Regex
unfolding nullable
derivative c never = never
derivative c empty = never
derivative c (one_of p) = elim (p c) [ true ↦ empty | false ↦ never ]
derivative c (either a b) = either (derivative c a) (derivative c b)
derivative c (both a b) = elim (nullable a) [
  | true ↦ either (both (derivative c a) b) (derivative c b)
  | false ↦ both (derivative c a) b
]
derivative c (star a) = both (derivative c a) (star a)

-- `re.fullmatch(pattern, text)`, as a test.
unfoldable pub fullmatch : Regex → Text → Bool
unfolding nullable derivative
fullmatch r [] = nullable r
fullmatch r (c ∷ s) = fullmatch (derivative c r) s

-- A text that stands for itself.
unfoldable pub literal : Text → Regex
literal [] = empty
literal (c ∷ s) = both (one_of (eqb c)) (literal s)

-- `r+`
abbrev pub plus : Regex → Regex
plus r = both r (star r)

-- `r{n}`
unfoldable pub times : ℕ → Regex → Regex
times zero r = empty
times (suc n) r = both r (times n r)
