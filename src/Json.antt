-- ===== src/Json.antt =====
-- The values that `json.loads` returns, and the dynamic operations of Python on them.
pub mod Shape
use landscape_openwrt.Base.{
  ℕ, ◌≡◌, refl, ap, Bool, true, false, not, Option, none, some, List, [], ◌∷◌, map, eqb, Text,
  Result, ok, raise, type_error, attribute_error, key_error, ◌>>=◌,
}
use landscape_openwrt.Base.Dict
use landscape_openwrt.Base.Dict.{Dict}

-- Of a number the program asks only whether it is zero, so `num` keeps a natural number. The keys
-- of an object differ.
mutual
  pub data Json : Type 0 where
    null : Json
    bool : Bool → Json
    num : ℕ → Json
    str : Text → Json
    arr : Items → Json
    obj : Fields → Json

  pub data Items : Type 0 where
    nil : Items
    cons : Json → Items → Items

  pub data Fields : Type 0 where
    end : Fields
    field : Text → Json → Fields → Fields

unfoldable pub to_list : Items → List Json
to_list nil = []
to_list (cons j js) = j ∷ to_list js

unfoldable pub of_list : List Json → Items
of_list [] = nil
of_list (j ∷ js) = cons j (of_list js)

unfoldable pub to_dict : Fields → Dict Json
to_dict end = []
to_dict (field k v fs) = (k, v) ∷ to_dict fs

unfoldable pub of_dict : Dict Json → Fields
of_dict [] = end
of_dict ((k, v) ∷ d) = field k v (of_dict d)

pub to_dict-of_dict : (d : Dict Json) → to_dict (of_dict d) ≡ d
unfolding to_dict of_dict
to_dict-of_dict [] = refl
to_dict-of_dict ((k, v) ∷ d) = ap (λ e. (k, v) ∷ e) (to_dict-of_dict d)

-- The value of a key, or the `KeyError`.
abbrev pub found_or : Text → Option Json → Result Json
found_or k (some v) = ok v
found_or k none = raise (key_error k)

-- `value[key]`
unfoldable pub index : Json → Text → Result Json
index (obj fs) k = found_or k (Dict.lookup k (to_dict fs))
index _ k = raise type_error

-- `value.get(key)`
unfoldable pub get : Json → Text → Result (Option Json)
get (obj fs) k = ok (Dict.lookup k (to_dict fs))
get _ k = raise attribute_error

-- `value.items()`
unfoldable pub items : Json → Result (Dict Json)
items (obj fs) = ok (to_dict fs)
items _ = raise attribute_error

-- What a `for` loop or a comprehension goes through: the values of a list, the keys of an object,
-- the characters of a text.
unfoldable pub elements : Json → Result (List Json)
unfolding to_list to_dict
elements (arr js) = ok (to_list js)
elements (obj fs) = ok (map (λ (f : Text × Json). str f.0) (to_dict fs))
elements (str s) = ok (map (λ c. str (c ∷ [])) s)
elements _ = raise type_error

-- `bool(value)`
unfoldable pub truthy : Json → Bool
truthy null = false
truthy (bool b) = b
truthy (num n) = not (eqb n 0)
truthy (str []) = false
truthy (arr nil) = false
truthy (obj end) = false
truthy _ = true

-- The text that a string method or `re.fullmatch` is given: any other value raises.
unfoldable pub as_text : Json → Result Text
as_text (str s) = ok s
as_text _ = raise type_error

-- The flag behind `value.get(key)`, where an absent key counts as `None`.
unfoldable pub flag : Json → Text → Result Bool
unfolding get truthy
flag j k = do found ← get j k; ok (elim found [ none ↦ false | some v ↦ truthy v ])

pub index-of_dict :
    (d : Dict Json) (k : Text) → index (obj (of_dict d)) k ≡ found_or k (Dict.lookup k d)
unfolding index
index-of_dict d k = rw to_dict-of_dict

pub items-of_dict : (d : Dict Json) → items (obj (of_dict d)) ≡ ok d
unfolding items
items-of_dict d = rw to_dict-of_dict
