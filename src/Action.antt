-- ===== src/Action.antt =====
-- Code with effects: an action takes the state so far and returns a result, or an exception, with the
-- state behind it. What was done before an exception stays done.
pub mod Laws
use landscape_openwrt.Base.{Error, Result, ok, raise}

abbrev pub Action : Type 0 → Type 0 → Type 0
Action S A = S → Result A × S

module _ {S A : Type 0} where
  abbrev pub pure : A → Action S A
  pure a s = (ok a, s)

  abbrev pub throw : Error → Action S A
  throw e s = (raise e, s)

  -- Code with no effect, among effects.
  abbrev pub lift : Result A → Action S A
  lift r s = (r, s)

module _ {S A B : Type 0} where
  abbrev pub continue : Result A × S → (A → Action S B) → Result B × S
  continue (ok a, s) f = f a s
  continue (raise e, s) f = (raise e, s)

  infixl 5 ◌>>=◌ ◌>>◌
  abbrev pub ◌>>=◌ : Action S A → (A → Action S B) → Action S B
  ◌>>=◌ m f s = continue (m s) f

  abbrev pub ◌>>◌ : Action S A → Action S B → Action S B
  ◌>>◌ m k s = continue (m s) (λ _. k)

-- What a `try` statement with a `finally` clause raises or returns: an exception of the clause takes the
-- place of the result.
abbrev pub after_finally : {A : Type 0} → Result A → Result (Unit {0}) → Result A
after_finally r (ok tt) = r
after_finally r (raise e) = raise e

module _ {S A : Type 0} where
  -- `try: m; finally: k`
  abbrev pub try_finally : Action S A → Action S (Unit {0}) → Action S A
  try_finally m k s = let p = m s in let q = k p.1 in (after_finally p.0 q.0, q.1)
