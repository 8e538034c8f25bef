-- ===== src/Base/Values.antt =====
-- What a value, an option or an `assert` that passes says.
use mathlib.Core.Path.{◌≡◌}
use mathlib.Core.Bool.{Bool, true, false, not}
use mathlib.Core.Option.{some}
use native.Mathlib.Omega.{arith}
use landscape_openwrt.Base.Strings.{Text, ◌==◌, ==_iff}
use landscape_openwrt.Base.Outcome.{ok, assert}

module _ {A : Type 0} where
  pub ok-inj : (a b : A) → ok a ≡ ok b → a ≡ b
  ok-inj a b h = cc

  pub some-inj : (a b : A) → some a ≡ some b → a ≡ b
  some-inj a b h = cc

pub assert-true : (b : Bool) (message : Text) → assert b message ≡ ok tt → b ≡ true
assert-true b message h = ground arith

pub assert-false : (b : Bool) (message : Text) → assert (not b) message ≡ ok tt → b ≡ false
assert-false b message h = ground arith

pub assert-same : (a b message : Text) → assert (a == b) message ≡ ok tt → a ≡ b
assert-same a b message h = (==_iff a b).0 (assert-true (a == b) message h)

-- A pair, for a chain of facts.
infixr 30 ◌&◌
pub ◌&◌ : {A B : Type 0} → A → B → A × B
a & b = (a, b)
