-- ===== src/Action/Laws.antt =====
-- Inversion of a chain of actions that succeeded.
use landscape_openwrt.Base.{
  ◌≡◌, refl, sym, ap, ◌∙◌, subst, Error, Bool, true, false, if◌then◌else◌, Result, ok, raise,
}
use landscape_openwrt.Action.{Action, pure, lift, continue, after_finally, try_finally, ◌>>=◌, ◌>>◌}

module _ {S A B : Type 0} where
  continue-eq-ok :
      (p : Result A × S) (f : A → Action S B) {b : B} {v : S}
      → continue p f ≡ (ok b, v)
      → (a : A) × (u : S) × (p ≡ (ok a, u)) × (f a u ≡ (ok b, v))
  continue-eq-ok (ok a, u) f h = (a, u, refl, h)
  continue-eq-ok (raise e, u) f h = cc

  pub >>=-eq-ok :
      (m : Action S A) (f : A → Action S B) (w : S) {b : B} {v : S}
      → (m >>= f) w ≡ (ok b, v)
      → (a : A) × (u : S) × (m w ≡ (ok a, u)) × (f a u ≡ (ok b, v))
  >>=-eq-ok m f w h = continue-eq-ok (m w) f h

-- What holds behind a chain: `P` behind its first action, whether that raised or not, and `Q` at the
-- end.
module _ {S A B : Type 0} (P Q : S → Type 0) (f : A → Action S B) where
  continue-keeps :
      (p : Result A × S)
      → P p.1
      → ((u : S) → P u → Q u)
      → ((a : A) (u : S) → P u → Q (f a u).1)
      → Q (continue p f).1
  continue-keeps (ok a, u) h stop go = go a u h
  continue-keeps (raise e, u) h stop go = stop u h

  pub >>=-keeps :
      (m : Action S A) (w : S)
      → P (m w).1
      → ((u : S) → P u → Q u)
      → ((a : A) (u : S) → P u → Q (f a u).1)
      → Q ((m >>= f) w).1
  >>=-keeps m w h stop go = continue-keeps (m w) h stop go

-- An action keeps a property of the run, whether it returns or raises.
abbrev pub Keeps : {S A : Type 0} → (S → Type 0) → Action S A → Type 0
Keeps {S} P m = (w : S) → P w → P (m w).1

module _ {S A B : Type 0} (P : S → Type 0) where
  pub Keeps-bind :
      (m : Action S A) (f : A → Action S B)
      → Keeps P m
      → ((a : A) → Keeps P (f a))
      → Keeps P (m >>= f)
  Keeps-bind m f km kf w h = continue-keeps P P f (m w) (km w h) (λ u p. p) (λ a u p. kf a u p)

  pub Keeps-then : (m : Action S A) (k : Action S B) → Keeps P m → Keeps P k → Keeps P (m >> k)
  Keeps-then m k km kk = Keeps-bind m (λ _. k) km (λ _. kk)

  -- Behind code with no effect, what follows may use that it returned.
  pub Keeps-lift :
      (r : Result A) (f : A → Action S B)
      → ((a : A) → r ≡ ok a → Keeps P (f a))
      → Keeps P (lift r >>= f)
  Keeps-lift (ok a) f kf w h = kf a refl w h
  Keeps-lift (raise e) f kf w h = h

module _ {S A : Type 0} where
  pub lift-eq-ok :
      (r : Result A) (w : S) {a : A} {u : S} → lift r w ≡ (ok a, u) → (r ≡ ok a) × (w ≡ u)
  lift-eq-ok r w h = (ap (λ (p : Result A × S). p.0) h, ap (λ (p : Result A × S). p.1) h)

module _ {S A : Type 0} (P : S → Type 0) where
  pub Keeps-if :
      (b : Bool) (m k : Action S A) → Keeps P m → Keeps P k → Keeps P (if b then m else k)
  Keeps-if true m k km kk = km
  Keeps-if false m k km kk = kk

-- Whatever an action returns has the property.
abbrev pub Ensures : {S A : Type 0} → (A → Type 0) → Action S A → Type 0
Ensures {S} {A} P m = (a : A) (w v : S) → m w ≡ (ok a, v) → P a

module _ {S A B : Type 0} (P : B → Type 0) where
  -- The rest of a chain may use that its first action returned.
  pub Ensures-bind :
      (m : Action S A) (f : A → Action S B)
      → ((a : A) (w u : S) → m w ≡ (ok a, u) → Ensures P (f a))
      → Ensures P (m >>= f)
  Ensures-bind m f rest b w v h = let (a, u, e, q) = >>=-eq-ok m f w h in rest a w u e b u v q

  pub Ensures-then : (m : Action S A) (k : Action S B) → Ensures P k → Ensures P (m >> k)
  Ensures-then m k rest = Ensures-bind m (λ _. k) (λ _ _ _ _. rest)

  pub Ensures-lift :
      (r : Result A) (f : A → Action S B)
      → ((a : A) → r ≡ ok a → Ensures P (f a))
      → Ensures P (lift r >>= f)
  Ensures-lift r f rest = Ensures-bind (lift r) f (λ a w u e. rest a (lift-eq-ok r w e).0)

-- Behind an action that returns, the state has the property.
abbrev pub Reaches : {S A : Type 0} → (S → Type 0) → Action S A → Type 0
Reaches {S} {A} P m = (a : A) (w v : S) → m w ≡ (ok a, v) → P v

module _ {S A B : Type 0} (P : S → Type 0) where
  pub Reaches-bind :
      (m : Action S A) (f : A → Action S B) → ((a : A) → Reaches P (f a)) → Reaches P (m >>= f)
  Reaches-bind m f rest b w v h = let (a, u, e, q) = >>=-eq-ok m f w h in rest a b u v q

  pub Reaches-then : (m : Action S A) (k : Action S B) → Reaches P k → Reaches P (m >> k)
  Reaches-then m k rest = Reaches-bind m (λ _. k) (λ _. rest)

module _ {S A : Type 0} (P : A → Type 0) where
  pub Ensures-pure : (a : A) → P a → Ensures P (pure {S = S} a)
  Ensures-pure a p b w v h = let e : a ≡ b = cc in subst P e p

module _ {S A : Type 0} (P : A → Type 0) where
  pub Ensures-if :
      (b : Bool) (m k : Action S A)
      → (b ≡ true → Ensures P m)
      → Ensures P k
      → Ensures P (if b then m else k)
  Ensures-if true m k em ek = em refl
  Ensures-if false m k em ek = ek

module _ {S A B : Type 0} where
  -- Two ways to go on that agree behind every result go on alike.
  pub continue-eq :
      (p : Result A × S) (f g : A → Action S B)
      → ((a : A) → p.0 ≡ ok a → f a p.1 ≡ g a p.1)
      → continue p f ≡ continue p g
  continue-eq (ok a, s) f g h = h a refl
  continue-eq (raise e, s) f g h = refl

pub then-eq :
    {S A B : Type 0} (f : Action S A) (k : Action S B) (s before : S) (a : A) (r : Result B × S)
    → f s ≡ (ok a, before)
    → k before ≡ r
    → (f >> k) s ≡ r
then-eq f k s before a r e h = ap (λ p. continue p (λ _. k)) e ∙ h

-- A `try` statement with what its `finally` clause does.
pub try_finally-eq :
    {S A : Type 0} (body : Action S A) (clause : Action S (Unit {0})) (s : S)
    (q : Result (Unit {0}) × S)
    → clause (body s).1 ≡ q
    → try_finally body clause s ≡ (after_finally (body s).0 q.0, q.1)
try_finally-eq body clause s q e = ap (λ r. (after_finally (body s).0 r.0, r.1)) e

module _ {S A : Type 0} (P : A → Type 0) where
  -- Each branch may use what the test was.
  pub Ensures-cases :
      (b : Bool) (m k : Action S A)
      → (b ≡ true → Ensures P m)
      → (b ≡ false → Ensures P k)
      → Ensures P (if b then m else k)
  Ensures-cases true m k em ek = em refl
  Ensures-cases false m k em ek = ek refl

-- Every exception that an action raises has the property.
abbrev pub Raises : {S A : Type 0} → (Error → Type 0) → Action S A → Type 0
Raises {S} {A} P m = (e : Error) (w v : S) → m w ≡ (raise e, v) → P e

module _ {S A : Type 0} (P : Error → Type 0) where
  pub Raises-pure : (a : A) → Raises P (pure {S = S} a)
  Raises-pure a e w v h = cc

module _ {S A B : Type 0} (P : Error → Type 0) where
  continue-Raises :
      (p : Result A × S) (f : A → Action S B)
      → ((e : Error) (v : S) → p ≡ (raise e, v) → P e)
      → ((a : A) (u : S) → p ≡ (ok a, u) → Raises P (f a))
      → (e : Error) (v : S) → continue p f ≡ (raise e, v)
      → P e
  continue-Raises (ok a, u) f stop go e v h = go a u refl e u v h
  continue-Raises (raise d, u) f stop go e v h = stop e v (cc)

  -- The rest of a chain may use that its first action returned.
  pub Raises-bind :
      (m : Action S A) (f : A → Action S B)
      → Raises P m
      → ((a : A) (w u : S) → m w ≡ (ok a, u) → Raises P (f a))
      → Raises P (m >>= f)
  Raises-bind m f stop go e w v h =
      continue-Raises (m w) f (λ d u q. stop d w u q) (λ a u q. go a w u q) e v h

  pub Raises-then : (m : Action S A) (k : Action S B) → Raises P m → Raises P k → Raises P (m >> k)
  Raises-then m k stop go = Raises-bind m (λ _. k) stop (λ _ _ _ _. go)

  -- Code that is known to return.
  pub Raises-ok :
      (r : Result A) (f : A → Action S B) {a : A}
      → r ≡ ok a
      → Raises P (f a)
      → Raises P (lift r >>= f)
  Raises-ok r f {a} q go =
      subst (λ (s : Result A). Raises P (lift {S = S} s >>= f)) (sym q) (λ e w v h. go e w v h)
