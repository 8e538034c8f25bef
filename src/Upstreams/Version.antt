-- ===== src/Upstreams/Version.antt =====
-- `version_key` and `latest_stable_tag` of scripts/upstreams.py, and the order of Python's tuples.
pub mod Order
pub mod Keys
pub mod Latest
use landscape_openwrt.Base.{
  ℕ, ◌+◌, ◌*◌, Bool, true, false, ◌||◌, Option, none, some, List, [], ◌∷◌, ltb, eqb, if◌then◌else◌,
  Text, codes, lstrip, split_on, Result, ok, raise, value_error, invalid_literal, too_many_digits,
  length, no_stable_tag, each, keep, ◌>>=◌,
}
use landscape_openwrt.Regex.{Regex, one_of, both, fullmatch, literal, plus}
use landscape_openwrt.Json.{Json, index, as_text}
use landscape_openwrt.Platform.{Platform}

-- A tuple of integers, all of them natural numbers here.
abbrev pub Key : Type 0
Key = List ℕ

-- `a < b` on tuples.
unfoldable pub key_lt : Key → Key → Bool
key_lt [] [] = false
key_lt [] (b ∷ bs) = true
key_lt (a ∷ as') [] = false
key_lt (a ∷ as') (b ∷ bs) = let rest = key_lt as' bs in if eqb a b then rest else ltb a b

-- The first of the greatest items, each with its key.
unfoldable pub max_from : {A : Type 0} → Key × A → List (Key × A) → Key × A
max_from best [] = best
max_from best (item ∷ rest) = max_from (if key_lt best.0 item.0 then item else best) rest

-- The separators of `re.split(r"[-.]", …)`.
abbrev pub is_separator : ℕ → Bool
is_separator c = eqb c b'-' || eqb c b'.'

-- `value[field]`, a text.
unfoldable pub text_at : Text → Json → Result Text
unfolding index as_text
text_at field value = do found ← index value field; as_text found

-- `sys.get_int_max_str_digits()`
abbrev pub max_digits : ℕ
max_digits = 4300

abbrev pub name_field : Text
name_field = codes "name"

module _ (py : Platform) where
  -- `\d`: any decimal digit of Unicode.
  abbrev pub is_decimal : ℕ → Bool
  is_decimal c = elim (py.decimal c) [ some d ↦ true | none ↦ false ]

  -- The digits behind those whose value is `n`.
  unfoldable pub digits_from : ℕ → Text → Result ℕ
  digits_from n [] = ok n
  digits_from n (c ∷ s) = elim (py.decimal c) [
    | some d ↦ digits_from (n * 10 + d) s
    | none ↦ raise (value_error invalid_literal)
  ]

  -- `int(text)` of digits, of which it takes no more than 4300. The signs, spaces and underscores that `int` also takes are left out, as
  -- no name that passes a version pattern has them in a part.
  unfoldable pub int_of : Text → Result ℕ
  unfolding digits_from
  int_of [] = raise (value_error invalid_literal)
  int_of (c ∷ s) =
      let n = digits_from 0 (c ∷ s) in
      if ltb max_digits (length (c ∷ s)) then raise (value_error too_many_digits) else n

  unfoldable pub version_key : Text → Result Key
  unfolding int_of lstrip split_on
  version_key name = each int_of (split_on is_separator (lstrip (eqb b'v') name))

  abbrev pub digits : Regex
  digits = plus (one_of is_decimal)

  abbrev pub dot : Regex
  dot = literal (codes ".")

  -- `\d+\.\d+\.\d+`
  abbrev pub three_numbers : Regex
  three_numbers = both digits (both dot (both digits (both dot digits)))

  -- `v\d+\.\d+\.\d+`, for ImmortalWrt tags and for landscape releases.
  abbrev pub tag_pattern : Regex
  tag_pattern = both (literal (codes "v")) three_numbers

  -- `\d+\.\d+\.\d+-\d+`, for PassWall releases.
  abbrev pub passwall_pattern : Regex
  passwall_pattern =
      both digits
        (both dot (both digits (both dot (both digits (both (literal (codes "-")) digits)))))

  -- `key(item)` beside the item.
  unfoldable pub with_key : Text → Json → Result (Key × Json)
  unfolding text_at version_key
  with_key field value = do name ← text_at field value; k ← version_key name; ok (k, value)

  -- `max([first, *rest], key=lambda item: version_key(item[field]))`, with its key.
  unfoldable pub newest_by : Text → Json → List Json → Result (Key × Json)
  unfolding each
  newest_by field first rest = do
    best ← with_key field first
    keyed ← each (with_key field) rest
    ok (max_from best keyed)

  unfoldable pub is_stable_tag : Json → Result Bool
  unfolding text_at
  is_stable_tag tag = do name ← text_at name_field tag; ok (fullmatch tag_pattern name)

  unfoldable pub latest_of : List Json → Result Json
  latest_of [] = raise (value_error no_stable_tag)
  latest_of (first ∷ rest) = do (_, newest) ← newest_by name_field first rest; ok newest

  unfoldable pub latest_stable_tag : List Json → Result Json
  latest_stable_tag tags = do stable ← keep is_stable_tag tags; latest_of stable
