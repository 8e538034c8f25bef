-- ===== src/Base/Dict.antt =====
-- Python's `dict` with texts for keys: an association list in the order of insertion.
use mathlib.Core.Path.{◌≡◌, refl}
use mathlib.Core.Bool.{Bool}
use mathlib.Core.Option.{Option, none, some}
use mathlib.Core.List.{List, [], ◌∷◌}
use native.Mathlib.Omega.{arith}
use landscape_openwrt.Base.Tests.{if◌then◌else◌}
use landscape_openwrt.Base.Strings.{Text, ◌==◌, ==_iff}

abbrev pub Dict : Type 0 → Type 0
Dict V = List (Text × V)

module _ {V : Type 0} where
  -- `d.get(k)`
  unfoldable pub lookup : Text → Dict V → Option V
  lookup k [] = none
  lookup k ((j, v) ∷ d) = let rest = lookup k d in if j == k then some v else rest

  -- `d[k] = v`
  unfoldable pub insert : Text → V → Dict V → Dict V
  insert k v [] = (k, v) ∷ []
  insert k v ((j, w) ∷ d) = let rest = insert k v d in if j == k then (j, v) ∷ d else (j, w) ∷ rest

  -- `{**d, **e}`
  unfoldable pub update : Dict V → Dict V → Dict V
  unfolding insert
  update d [] = d
  update d ((k, v) ∷ e) = update (insert k v d) e

  -- `{key: value for key, value in d.items() if p(key)}`
  unfoldable pub restrict : (Text → Bool) → Dict V → Dict V
  restrict p [] = []
  restrict p ((k, v) ∷ d) = let rest = restrict p d in if p k then (k, v) ∷ rest else rest

  pub lookup-insert :
      (k j : Text) (v : V) (d : Dict V)
      → lookup j (insert k v d) ≡ (if k == j then some v else lookup j d)
  unfolding lookup insert
  lookup-insert k j v [] = refl
  lookup-insert k j v ((i, w) ∷ d) =
      ground (arith, ==_iff k j, ==_iff i k, ==_iff i j, lookup-insert k j v d)

  pub lookup-restrict :
      (p : Text → Bool) (k : Text) (d : Dict V)
      → lookup k (restrict p d) ≡ (if p k then lookup k d else none)
  unfolding lookup restrict
  lookup-restrict p k [] = ground arith
  lookup-restrict p k ((j, v) ∷ d) = ground (arith, ==_iff j k, lookup-restrict p k d)
