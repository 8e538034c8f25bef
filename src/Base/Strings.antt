-- ===== src/Base/Strings.antt =====
-- Texts and byte strings as lists of code points and bytes, with the methods of Python's `str`
-- that the program calls.
use Prim.Native.Char.{code}
use Prim.Native.String.{String}
use Prim.Native.Nat.{ℕ}
use mathlib.Core.Path.{◌≡◌, refl}
use mathlib.Core.Logic.{◌↔◌}
use mathlib.Core.Bool.{Bool, true, false, ◌&&◌, ◌||◌}
use mathlib.Core.Option.{Option, none, some}
use mathlib.Core.List.{List, [], ◌∷◌, ◌++◌, reverse}
use native.Mathlib.Omega.{arith}
use landscape_openwrt.Base.Tests.{eqb, leb, if◌then◌else◌}

abbrev pub Text : Type 0
Text = List ℕ

abbrev pub Bytes : Type 0
Bytes = List ℕ

-- The code points of a literal.
abbrev pub codes : String → Text
codes String.[] = []
codes (String.◌∷◌ c s) = code c ∷ codes s

infix 50 ◌==◌
unfoldable pub ◌==◌ : Text → Text → Bool
[] == [] = true
[] == (c ∷ t) = false
(c ∷ s) == [] = false
(c ∷ s) == (d ∷ t) = eqb c d && (s == t)

pub ==_eq : (s t : Text) → (s == t) ≡ true → s ≡ t
unfolding ◌==◌
==_eq [] [] h = refl
==_eq [] (c ∷ t) h = cc
==_eq (c ∷ s) [] h = cc
==_eq (c ∷ s) (d ∷ t) h = ground (arith, ==_eq s t)

pub ==_refl : (s : Text) → (s == s) ≡ true
unfolding ◌==◌
==_refl [] = refl
==_refl (c ∷ s) = ground (arith, ==_refl s)

pub ==_iff : (s t : Text) → ((s == t) ≡ true) ↔ (s ≡ t)
==_iff s t = (==_eq s t, λ e. rw e (==_refl t))

-- `s.startswith(p)` and what is left behind the prefix.
unfoldable pub after_prefix : Text → Text → Option Text
after_prefix [] s = some s
after_prefix (c ∷ p) [] = none
after_prefix (c ∷ p) (d ∷ s) = let rest = after_prefix p s in if eqb c d then rest else none

-- `s.startswith(p)`
unfoldable pub starts_with : Text → Text → Bool
unfolding after_prefix
starts_with s p = elim (after_prefix p s) [ some r ↦ true | none ↦ false ]

-- `s.removeprefix(p)`
unfoldable pub remove_prefix : Text → Text → Text
unfolding after_prefix
remove_prefix p s = elim (after_prefix p s) [ some r ↦ r | none ↦ s ]

-- `s.removesuffix(p)`
unfoldable pub remove_suffix : Text → Text → Text
unfolding after_prefix
remove_suffix p s = elim (after_prefix (reverse p) (reverse s)) [ some r ↦ reverse r | none ↦ s ]

-- `s.lstrip(chars)`
unfoldable pub lstrip : (ℕ → Bool) → Text → Text
lstrip p [] = []
lstrip p (c ∷ s) = let rest = lstrip p s in if p c then rest else c ∷ s

-- A character in front of the first piece.
abbrev pub onto_first : ℕ → List Text → List Text
onto_first c [] = (c ∷ []) ∷ []
onto_first c (w ∷ ws) = (c ∷ w) ∷ ws

-- `re.split` by a class of characters, and `str.split` by one: never the empty list.
unfoldable pub split_on : (ℕ → Bool) → Text → List Text
split_on p [] = [] ∷ []
split_on p (c ∷ s) = let rest = split_on p s in if p c then [] ∷ rest else onto_first c rest

-- `sep.join(pieces)`
unfoldable pub join : Text → List Text → Text
join sep [] = []
join sep (w ∷ []) = w
join sep (w ∷ v ∷ ws) = w ++ sep ++ join sep (v ∷ ws)

-- The characters that `str.split()` treats as white space.
unfoldable pub is_space : ℕ → Bool
is_space c =
    (leb 9 c && leb c 13)
    || (leb 28 c && leb c 32)
    || eqb c 0x85
    || eqb c 0xa0
    || eqb c 0x1680
    || (leb 0x2000 c && leb c 0x200a)
    || eqb c 0x2028
    || eqb c 0x2029
    || eqb c 0x202f
    || eqb c 0x205f
    || eqb c 0x3000

-- The characters that end a line for `str.splitlines()`.
unfoldable pub is_line_end : ℕ → Bool
is_line_end c =
    (leb 10 c && leb c 13) || (leb 28 c && leb c 30) || eqb c 0x85 || eqb c 0x2028 || eqb c 0x2029

-- `s.splitlines()`: the flag tells that the last character was a carriage return, so that a line
-- feed behind it ends no further line. Text behind the last line end is a line if it is not empty.
unfoldable pub lines_from : Bool → Text → List Text
lines_from cr [] = []
lines_from cr (c ∷ s) =
    let rest = lines_from (eqb c 13) s in
    if cr && eqb c 10 then rest else if is_line_end c then [] ∷ rest else onto_first c rest

unfoldable pub splitlines : Text → List Text
splitlines s = lines_from false s

-- The pieces between runs of white space, and whether the first begins at once.
unfoldable pub words_from : Text → List Text × Bool
words_from [] = ([], false)
words_from (c ∷ s) =
    let (ws, open_piece) = words_from s in
    if is_space c
    then (ws, false)
    else (if open_piece then onto_first c ws else (c ∷ []) ∷ ws, true)

-- `s.split()`
unfoldable pub split_words : Text → List Text
split_words s = (words_from s).0

-- `s.strip()`
unfoldable pub strip : Text → Text
unfolding lstrip is_space
strip s = reverse (lstrip is_space (reverse (lstrip is_space s)))

-- `t in s`, for texts.
unfoldable pub is_inside : Text → Text → Bool
unfolding starts_with
is_inside t [] = starts_with [] t
is_inside t (c ∷ s) = let rest = is_inside t s in starts_with (c ∷ s) t || rest

-- The words of a literal, between single blanks.
abbrev pub words : String → List Text
words String.[] = [] ∷ []
words (String.◌∷◌ c s) = if eqb (code c) 32 then [] ∷ words s else onto_first (code c) (words s)
