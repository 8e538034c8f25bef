-- ===== src/Io/Disk.antt =====
-- What an operation on a path leaves, whether it is refused or not.
use landscape_openwrt.Base.{
  ℕ, ◌≡◌, subst, ◌⊎◌, inl, inr, some, Option-cases, List, ◌∷◌, ◌++◌, arith, length, Text, Error, ok,
  raise, other_error,
}
use landscape_openwrt.Platform.{Platform}
use landscape_openwrt.Action.{◌>>◌}
use landscape_openwrt.Action.Laws.{Keeps, Raises}
use landscape_openwrt.Io.{Io, World, Event, touch}

module _ (py : Platform) (path : Text) (event : Event) (left : List Event) where
  -- The world behind the operation, and behind its failure.
  abbrev done : World → World
  done w = record w { log = event ∷ w.log }

  abbrev failed : World → World
  failed w = record w { log = left ++ w.log }

  pub touch-cases :
      (w : World)
      → (touch py path event left w ≡ (ok tt, done w))
        ⊎ ((name : Text) × (py.refused (length w.log) path ≡ some name)
            × (touch py path event left w ≡ (raise (other_error name), failed w)))
  unfolding touch
  touch-cases w = elim (Option-cases (py.refused (length w.log) path)) [
    | inl e ↦ inl (ground arith)
    | inr (name, e) ↦ inr (name, e, ground arith)
  ]

  module _ (P : List Event → Type 0) where
    abbrev Holds : World → Type 0
    Holds w = P w.log

    pub touch-at :
        (w : World) → P (event ∷ w.log) → P (left ++ w.log) → Holds (touch py path event left w).1
    touch-at w h k = elim (touch-cases w) [ inl e ↦ rw e h | inr (name, _, e) ↦ rw e k ]

    pub touch-Keeps :
        ((log : List Event) → P log → P (event ∷ log))
        → ((log : List Event) → P log → P (left ++ log))
        → Keeps Holds (touch py path event left)
    touch-Keeps h k w p = touch-at w (h w.log p) (k w.log p)

    -- What follows runs only behind an operation that was done.
    pub touch-then :
        {A : Type 0} (k : Io A) (w : World)
        → P (left ++ w.log)
        → Holds (k (done w)).1
        → Holds ((touch py path event left >> k) w).1
    touch-then k w f h = elim (touch-cases w) [ inl e ↦ rw e h | inr (name, _, e) ↦ rw e f ]

  pub touch-Raises :
      (C : Error → Type 0)
      → ((n : ℕ) (name : Text) → py.refused n path ≡ some name → C (other_error name))
      → Raises C (touch py path event left)
  touch-Raises C fails e w v h = elim (touch-cases w) [
    | inl q ↦ cc
    | inr (name, r, q) ↦ let same : other_error name ≡ e = cc in subst C same (fails _ name r)
  ]
