-- ===== src/Upstreams/Main/Leaves.antt =====
-- What actions that return leave behind.
use landscape_openwrt.Base.{
  ◌≡◌, refl, sym, ◌∙◌, Text, ap, subst, inl, inr, List, [], ◌∷◌, All, In, Result, ok,
}
use landscape_openwrt.Action.{lift, ◌>>=◌}
use landscape_openwrt.Action.Laws.{Keeps, >>=-eq-ok, lift-eq-ok}
use landscape_openwrt.Platform.{Platform}
use landscape_openwrt.Io.{Io, World, Event, touch}
use landscape_openwrt.Io.Disk.{touch-cases}
use landscape_openwrt.Upstreams.Main.Grows.{IsLasting}

-- Behind an action that returned, the events have the property.
abbrev pub Leaves : {A : Type 0} → (List Event → Type 0) → Io A → Type 0
Leaves {A} P m = (a : A) (w v : World) → m w ≡ (ok a, v) → P v.log

module _ {A B : Type 0} (P : List Event → Type 0) where
  pub Leaves-bind : (m : Io A) (f : A → Io B) → ((a : A) → Leaves P (f a)) → Leaves P (m >>= f)
  Leaves-bind m f rest b w v h = let (a, u, e, q) = >>=-eq-ok m f w h in rest a b u v q

  pub Leaves-lift :
      (r : Result A) (f : A → Io B)
      → ((a : A) → r ≡ ok a → Leaves P (f a))
      → Leaves P (lift r >>= f)
  Leaves-lift r f rest b w v h =
      let (a, u, e, q) = >>=-eq-ok (lift r) f w h in rest a (lift-eq-ok r w e).0 b u v q

  -- What the first action leaves is still there at the end, beside what the rest leaves.
  pub Leaves-both :
      (Q : List Event → Type 0) (m : Io A) (f : A → Io B)
      → Leaves P m
      → ((a : A) → Keeps (λ (u : World). P u.log) (f a))
      → ((a : A) → Leaves Q (f a))
      → Leaves (λ log. P log × Q log) (m >>= f)
  Leaves-both Q m f first kept rest b w v h =
      let (a, u, e, q) = >>=-eq-ok m f w h in
      (
        subst (λ (x : World). P x.log) (ap (λ (p : Result B × World). p.1) q)
            (kept a u (first a w u e)),
        rest a b u v q,
      )

pub Leaves-map :
    {A : Type 0} (P Q : List Event → Type 0) (m : Io A)
    → ((log : List Event) → P log → Q log)
    → Leaves P m
    → Leaves Q m
Leaves-map P Q m go h a w v e = go v.log (h a w v e)

-- The event took place.
abbrev pub Took : Event → List Event → Type 0
Took event log = In event log

pub Took-IsLasting : (event : Event) → IsLasting (Took event)
Took-IsLasting event e log h = inr h

pub touch-Leaves :
    (py : Platform) (path : Text) (event : Event) (left : List Event)
    → Leaves (Took event) (touch py path event left)
touch-Leaves py path event left a w v h = elim (touch-cases py path event left w) [
  | inl e ↦
      subst (λ (x : World). Took event x.log)
        (ap (λ (p : Result (Unit {0}) × World). p.1) (sym e ∙ h)) (inl refl)
  | inr (name, _, e) ↦ cc
]

pub All-IsLasting :
    {A : Type 0} (P : A → List Event → Type 0) (xs : List A)
    → ((x : A) → IsLasting (P x))
    → IsLasting (λ log. All (λ x. P x log) xs)
All-IsLasting P [] h e log k = tt
All-IsLasting P (x ∷ xs) h e log (p, k) = (h x e log p, All-IsLasting P xs h e log k)
