-- ===== src/Json/Shape.antt =====
-- What kind of value a JSON value is: the values and the objects that scripts/upstreams.py expects.
use landscape_openwrt.Base.{
  ◌≡◌, refl, ap, ◌∙◌, Bool, true, false, not, ◌&&◌, arith, some, List, [], ◌∷◌, ◌++◌, Text, ◌==◌,
  ==_iff, ok, Bool-cases, inl, inr,
}
use landscape_openwrt.Base.Dict
use landscape_openwrt.Base.Dict.{Dict}
use landscape_openwrt.Json.{
  Json, str, null, bool, num, arr, obj, of_dict, as_text, index, index-of_dict, found_or,
}

-- The fields of an object, in order, with what their values are.
abbrev pub Shape : Type 1
Shape = List (Text × (Json → Type 0))

abbrev pub HasShape : Shape → Dict Json → Type 0
HasShape [] d = d ≡ []
HasShape ((key, P) ∷ shape) d =
    (value : Json) × (rest : Dict Json) × (d ≡ (key, value) ∷ rest) × P value × HasShape shape rest

abbrev pub IsText : Json → Type 0
IsText value = (text : Text) × (value ≡ str text)

abbrev pub IsObject : Shape → Json → Type 0
IsObject shape value = (d : Dict Json) × (value ≡ obj (of_dict d)) × HasShape shape d

pub as_text-eq-ok : (value : Json) (text : Text) → as_text value ≡ ok text → value ≡ str text
unfolding as_text
as_text-eq-ok (str s) text h = let e : s ≡ text = cc in ap str e
as_text-eq-ok null text h = cc
as_text-eq-ok (bool b) text h = cc
as_text-eq-ok (num n) text h = cc
as_text-eq-ok (arr js) text h = cc
as_text-eq-ok (obj fs) text h = cc

-- The keys are those of the shape, and the values what they should be.
unfoldable pub same_keys : Shape → Dict Json → Bool
same_keys [] [] = true
same_keys ((key, P) ∷ shape) ((k, value) ∷ d) = key == k && same_keys shape d
same_keys _ _ = false

abbrev pub AreKind : Shape → Dict Json → Type 0
AreKind ((key, P) ∷ shape) ((k, value) ∷ d) = P value × AreKind shape d
AreKind _ _ = Unit {0}

pub same_keys-HasShape :
    (shape : Shape) (d : Dict Json) → same_keys shape d ≡ true → AreKind shape d → HasShape shape d
unfolding same_keys
same_keys-HasShape [] [] h k = refl
same_keys-HasShape [] (f ∷ d) h k = cc
same_keys-HasShape (entry ∷ shape) [] h k = cc
same_keys-HasShape ((key, P) ∷ shape) ((j, value) ∷ d) h (p, k) =
    let same : key ≡ j = (==_iff key j).0 (ground arith) in
    (value, d, rw same refl, p, same_keys-HasShape shape d (ground arith) k)

-- No field of the shape has this key.
unfoldable pub lacks : Shape → Text → Bool
lacks [] key = true
lacks ((k, P) ∷ shape) key = not (k == key) && lacks shape key

-- A field that is new comes last.
pub insert-HasShape :
    (shape : Shape) (key : Text) (value : Json) (P : Json → Type 0) (d : Dict Json)
    → lacks shape key ≡ true
    → HasShape shape d
    → P value
    → HasShape (shape ++ (key, P) ∷ []) (Dict.insert key value d)
unfolding Dict.insert lacks
insert-HasShape [] key value P d new h p = (value, [], rw h refl, p, refl)
insert-HasShape ((k, Q) ∷ shape) key value P d new (v, rest, same, q, h) p =
    let other : (k == key) ≡ false = ground arith in
    (
      v,
      Dict.insert key value rest,
      rw (same, other) refl,
      q,
      insert-HasShape shape key value P rest (ground arith) h p,
    )

-- The fields whose keys pass.
abbrev pub chosen : Bool → Text × (Json → Type 0) → Shape → Shape
chosen true entry shape = entry ∷ shape
chosen false entry shape = shape

unfoldable pub restricted : (Text → Bool) → Shape → Shape
restricted p [] = []
restricted p ((key, P) ∷ shape) = chosen (p key) (key, P) (restricted p shape)

pub restrict-HasShape :
    (p : Text → Bool) (shape : Shape) (d : Dict Json)
    → HasShape shape d
    → HasShape (restricted p shape) (Dict.restrict p d)
unfolding Dict.restrict restricted
restrict-HasShape p [] d h = rw h refl
restrict-HasShape p ((key, P) ∷ shape) d (v, rest, same, q, h) = elim (Bool-cases (p key)) [
  | inl e ↦ rw (same, e) (v, Dict.restrict p rest, refl, q, restrict-HasShape p shape rest h)
  | inr e ↦ rw (same, e) (restrict-HasShape p shape rest h)
]

-- What the value of a key is, if the key is one of the shape.
abbrev Choice : Bool → Type 0 → Type 0 → Type 0
Choice true A B = A
Choice false A B = B

abbrev pub IsValue : Shape → Text → Json → Type 0
IsValue [] key value = ⊥
IsValue ((k, P) ∷ shape) key value = Choice (k == key) (P value) (IsValue shape key value)

pub lookup-HasShape :
    (shape : Shape) (key : Text) (d : Dict Json)
    → lacks shape key ≡ false
    → HasShape shape d
    → (value : Json) × (Dict.lookup key d ≡ some value) × IsValue shape key value
unfolding Dict.lookup lacks
lookup-HasShape [] key d known h = cc
lookup-HasShape ((k, P) ∷ shape) key d known (v, rest, same, p, h) = elim (Bool-cases (k == key)) [
  | inl e ↦ (v, rw (same, e) refl, rw e p)
  | inr e ↦
      let (value, found, q) = lookup-HasShape shape key rest (ground arith) h in
      (value, rw (same, e) found, rw e q)
]

-- A key of the shape is there, with a value of its kind.
pub index-HasShape :
    (shape : Shape) (key : Text) (d : Dict Json)
    → lacks shape key ≡ false
    → HasShape shape d
    → (value : Json) × (index (obj (of_dict d)) key ≡ ok value) × IsValue shape key value
index-HasShape shape key d known h =
    let (value, found, q) = lookup-HasShape shape key d known h in
    (value, index-of_dict d key ∙ ap (found_or key) found, q)
