-- ===== src/Upstreams/Checksum/Laws.antt =====
-- A checksum file that is written line by line is read back.
use mathlib.Core.List.{append-nil}
use landscape_openwrt.Base.{
  ℕ, ◌≡◌, refl, sym, ap, ◌∙◌, Bool, true, false, Option, none, some, List, [], ◌∷◌, ◌++◌, arith,
  eqb, if◌then◌else◌, All, Text, ◌==◌, lstrip, onto_first, is_space, is_line_end, lines_from,
  splitlines, words_from, split_words, ◌⊎◌, inl, inr, Bool-cases, all, length, ok, raise,
  value_error, not_one_rootfs_checksum,
}
use landscape_openwrt.Regex.{fullmatch}
use landscape_openwrt.Regex.Laws.{fullmatch_iff}
use landscape_openwrt.Regex.Shapes.{Lang-times, times-all}
use landscape_openwrt.Platform.{is_hex}
use landscape_openwrt.Upstreams.Digest.{hex_pattern}
use landscape_openwrt.Upstreams.Checksum.{
  onto_matches, checksum_of, matches_in, only_checksum, rootfs_checksum,
}

space_of_line_end : (c : ℕ) → is_space c ≡ false → is_line_end c ≡ false
unfolding is_space is_line_end
space_of_line_end c h = ground arith

-- A character that is no white space.
abbrev pub IsSolid : ℕ → Type 0
IsSolid c = is_space c ≡ false

line_feed_first : (s : Text) → lines_from false (10 ∷ s) ≡ [] ∷ lines_from false s
unfolding lines_from is_line_end
line_feed_first s = refl

not_line_feed : (c : ℕ) → is_line_end c ≡ false → (eqb c 10 ≡ false) × (eqb c 13 ≡ false)
unfolding is_line_end
not_line_feed c h = ground arith

lines_from-solid :
    (cr : Bool) (c : ℕ) (s : Text)
    → is_line_end c ≡ false
    → lines_from cr (c ∷ s) ≡ onto_first c (lines_from false s)
unfolding lines_from
lines_from-solid cr c s h = let (p, q) = not_line_feed c h in rw (h, p, q) (ground arith)

-- A line that has no line end in it, in front of a line feed.
lines_from-line :
    (cr : Bool) (c : ℕ) (line s : Text)
    → All (λ d. is_line_end d ≡ false) (c ∷ line)
    → lines_from cr ((c ∷ line) ++ 10 ∷ s) ≡ (c ∷ line) ∷ lines_from false s
lines_from-line cr c [] s (h, _) = lines_from-solid cr c (10 ∷ s) h ∙ rw line_feed_first
lines_from-line cr c (d ∷ line) s (h, more) =
    lines_from-solid cr c ((d ∷ line) ++ 10 ∷ s) h ∙ rw (lines_from-line false d line s more)

words_from-blank : (s : Text) → words_from (32 ∷ s) ≡ ((words_from s).0, false)
unfolding words_from is_space
words_from-blank s = refl

words_from-solid :
    (c : ℕ) (s : Text)
    → IsSolid c
    → words_from (c ∷ s) ≡ (
      if (words_from s).1 then onto_first c (words_from s).0 else (c ∷ []) ∷ (words_from s).0,
      true,
    )
unfolding words_from
words_from-solid c s h = rw h

-- A word in front of a blank or at the end.
words_from-word :
    (c : ℕ) (w s : Text)
    → All IsSolid (c ∷ w)
    → (words_from s).1 ≡ false
    → words_from ((c ∷ w) ++ s) ≡ ((c ∷ w) ∷ (words_from s).0, true)
words_from-word c [] s (h, _) e = words_from-solid c s h ∙ rw e
words_from-word c (d ∷ w) s (h, more) e =
    words_from-solid c ((d ∷ w) ++ s) h ∙ rw (words_from-word d w s more e)

-- An entry that `sha256sum` can have written: no white space, a name that begins with no asterisk.
pub record IsEntry (entry : Text × Text) : Type 0 where
  pub sum_first : ℕ
  pub sum_rest : Text
  pub sum_eq : entry.0 ≡ sum_first ∷ sum_rest
  pub sum_solid : All IsSolid (sum_first ∷ sum_rest)
  pub name_first : ℕ
  pub name_rest : Text
  pub name_eq : entry.1 ≡ name_first ∷ name_rest
  pub name_solid : All IsSolid (name_first ∷ name_rest)
  pub no_asterisk : eqb b'*' name_first ≡ false

-- The line of an entry, in text mode.
abbrev pub line_of : Text × Text → Text
line_of (sum, name) = sum ++ (32 ∷ 32 ∷ name)

-- The file.
abbrev pub render : List (Text × Text) → Text
render [] = []
render (entry ∷ entries) = line_of entry ++ 10 ∷ render entries

-- The sums that the entries have for a file name.
abbrev pub sums_of : Text → List (Text × Text) → List Text
sums_of filename [] = []
sums_of filename ((sum, name) ∷ entries) =
    let rest = sums_of filename entries in if name == filename then sum ∷ rest else rest

words_from-nil : words_from [] ≡ ([], false)
unfolding words_from
words_from-nil = refl

split_words-line :
    (c : ℕ) (sum : Text) (d : ℕ) (name : Text)
    → All IsSolid (c ∷ sum)
    → All IsSolid (d ∷ name)
    → split_words (line_of (c ∷ sum, d ∷ name)) ≡ (c ∷ sum) ∷ (d ∷ name) ∷ []
unfolding split_words
split_words-line c sum d name h k =
    let last : words_from (d ∷ name) ≡ ((d ∷ name) ∷ [], true) =
      ap words_from (sym (append-nil (d ∷ name)))
      ∙ words_from-word d name [] k (ap (λ (p : List Text × Bool). p.1) words_from-nil)
      ∙ ap (λ (p : List Text × Bool). ((d ∷ name) ∷ p.0, true)) words_from-nil in
    let blanks : words_from (32 ∷ 32 ∷ d ∷ name) ≡ ((d ∷ name) ∷ [], false) =
      words_from-blank (32 ∷ d ∷ name) ∙ rw (words_from-blank, last) in
    ap (λ (p : List Text × Bool). p.0)
      (words_from-word c sum (32 ∷ 32 ∷ d ∷ name) h (ap (λ (p : List Text × Bool). p.1) blanks))
    ∙ ap (λ (p : List Text × Bool). (c ∷ sum) ∷ p.0) blanks

line_ends-solid : (s : Text) → All IsSolid s → All (λ d. is_line_end d ≡ false) s
line_ends-solid [] h = tt
line_ends-solid (c ∷ s) (e, h) = (space_of_line_end c e, line_ends-solid s h)

All-append : (P : ℕ → Type 0) (s t : Text) → All P s → All P t → All P (s ++ t)
All-append P [] t h k = k
All-append P (c ∷ s) t (e, h) k = (e, All-append P s t h k)

blank-not_line_end : is_line_end 32 ≡ false
unfolding is_line_end
blank-not_line_end = refl

-- The first line of a file that begins with an entry.
lines_from-entry :
    (c : ℕ) (sum : Text) (d : ℕ) (name s : Text)
    → All IsSolid (c ∷ sum)
    → All IsSolid (d ∷ name)
    → lines_from false (line_of (c ∷ sum, d ∷ name) ++ 10 ∷ s)
      ≡ line_of (c ∷ sum, d ∷ name) ∷ lines_from false s
lines_from-entry c sum d name s h k = lines_from-line false c (sum ++ (32 ∷ 32 ∷ d ∷ name)) s (
    All-append (λ x. is_line_end x ≡ false) (c ∷ sum) (32 ∷ 32 ∷ d ∷ name)
      (line_ends-solid (c ∷ sum) h)
      (blank-not_line_end, (blank-not_line_end, line_ends-solid (d ∷ name) k)))

if-onto_matches :
    (b : Bool) (sum : Text) (sums : List Text)
    → onto_matches (if b then some sum else none) sums ≡ (if b then sum ∷ sums else sums)
if-onto_matches true sum sums = refl
if-onto_matches false sum sums = refl

lstrip-name : (d : ℕ) (name : Text) → eqb b'*' d ≡ false → lstrip (eqb b'*') (d ∷ name) ≡ d ∷ name
unfolding lstrip
lstrip-name d name h = rw h

checksum_of-pair :
    (filename sum : Text) (d : ℕ) (name : Text)
    → eqb b'*' d ≡ false
    → checksum_of filename (sum ∷ (d ∷ name) ∷ [])
      ≡ (if (d ∷ name) == filename then some sum else none)
unfolding checksum_of
checksum_of-pair filename sum d name e = rw (lstrip-name d name e)

matches_in-line :
    (filename : Text) (c : ℕ) (sum : Text) (d : ℕ) (name : Text) (lines : List Text)
    → All IsSolid (c ∷ sum)
    → All IsSolid (d ∷ name)
    → eqb b'*' d ≡ false
    → matches_in filename (line_of (c ∷ sum, d ∷ name) ∷ lines) ≡ (
        if (d ∷ name) == filename
        then (c ∷ sum) ∷ matches_in filename lines
        else matches_in filename lines)
unfolding matches_in
matches_in-line filename c sum d name lines h k e =
    let found : checksum_of filename (split_words (line_of (c ∷ sum, d ∷ name)))
        ≡ (if (d ∷ name) == filename then some (c ∷ sum) else none) =
      ap (checksum_of filename) (split_words-line c sum d name h k)
      ∙ checksum_of-pair filename (c ∷ sum) d name e in
    ap (λ (o : Option Text). onto_matches o (matches_in filename lines)) found
    ∙ if-onto_matches ((d ∷ name) == filename) (c ∷ sum) (matches_in filename lines)

matches_in-nil : (filename : Text) → matches_in filename (lines_from false (render [])) ≡ []
unfolding matches_in lines_from
matches_in-nil filename = refl

matches_in-render :
    (filename : Text) (entries : List (Text × Text))
    → All IsEntry entries
    → matches_in filename (lines_from false (render entries)) ≡ sums_of filename entries
matches_in-render filename [] h = matches_in-nil filename
matches_in-render filename ((sum, name) ∷ entries) (e, h) =
    rw (e.sum_eq, e.name_eq)
      (ap (matches_in filename) (
          lines_from-entry e.sum_first e.sum_rest e.name_first e.name_rest (render entries)
            e.sum_solid e.name_solid)
        ∙ matches_in-line filename e.sum_first e.sum_rest e.name_first e.name_rest
            (lines_from false (render entries)) e.sum_solid e.name_solid e.no_asterisk
        ∙ ap
            (λ (sums : List Text).
              if (e.name_first ∷ e.name_rest) == filename
              then (e.sum_first ∷ e.sum_rest) ∷ sums
              else sums)
            (matches_in-render filename entries h))

-- There is one sum, of 64 hex digits.
abbrev pub IsOnly : List Text → Text → Type 0
IsOnly sums sum = (sums ≡ sum ∷ []) × (length sum ≡ 64) × (all is_hex sum ≡ true)

hex_pattern-IsOnly : (sum : Text) → fullmatch hex_pattern sum ≡ true → IsOnly (sum ∷ []) sum
hex_pattern-IsOnly sum h =
    let (size, hex) = times-all is_hex 64 sum ((fullmatch_iff hex_pattern sum).0 h) in
    (refl, size, hex)

IsOnly-hex_pattern : (sum other : Text) → IsOnly (sum ∷ []) other → fullmatch hex_pattern sum ≡ true
IsOnly-hex_pattern sum other (e, size, hex) =
    let same : sum ≡ other = cc in
    rw same ((fullmatch_iff hex_pattern other).1 (Lang-times is_hex 64 other size hex))

no_other :
    (sums : List Text) → ((sum : Text) → IsOnly sums sum → ⊥) → ¬ ((sum : Text) × IsOnly sums sum)
no_other sums h p = h p.0 p.1

only_checksum-cases :
    (sums : List Text)
    → ((sum : Text) × IsOnly sums sum × (only_checksum sums ≡ ok sum))
      ⊎ ((¬ ((sum : Text) × IsOnly sums sum))
          × (only_checksum sums ≡ raise (value_error not_one_rootfs_checksum)))
unfolding only_checksum
only_checksum-cases [] = inr (no_other _ λ sum h. cc, refl)
only_checksum-cases (sum ∷ []) = elim (Bool-cases (fullmatch hex_pattern sum)) [
  | inl e ↦ inl (sum, hex_pattern-IsOnly sum e, rw e)
  | inr e ↦
      inr
        (no_other (sum ∷ []) (λ other only. let t = IsOnly-hex_pattern sum other only in cc), rw e)
]
only_checksum-cases (a ∷ b ∷ more) = inr (no_other _ λ sum h. cc, refl)

-- In a file of lines for entries that have no white space in them and no asterisk in front: either the
-- file name has exactly one entry, of 64 hex digits, and that is its checksum, or it has none, several
-- or another text, and that is refused. Other entries do not count.
pub rootfs_checksum-render :
    (filename : Text) (entries : List (Text × Text))
    → All IsEntry entries
    → ((sum : Text) × IsOnly (sums_of filename entries) sum
        × (rootfs_checksum (render entries) filename ≡ ok sum))
      ⊎ ((¬ ((sum : Text) × IsOnly (sums_of filename entries) sum))
          × (rootfs_checksum (render entries) filename
              ≡ raise (value_error not_one_rootfs_checksum)))
unfolding rootfs_checksum splitlines
rootfs_checksum-render filename entries h =
    rw (matches_in-render filename entries h) (only_checksum-cases (sums_of filename entries))
