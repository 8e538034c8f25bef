-- ===== src/Compose/Asserts.antt =====
-- Inversion of assertions and checks that pass.
use landscape_openwrt.Base.{
  assert, ◌≡◌, refl, Bool, true, false, not, ◌&&◌, arith, Text, Result, ok, raise, ◌>>◌,
}

-- What follows an assertion that holds.
pub assert-then :
    {A : Type 0} (b : Bool) (message : Text) (rest : Result A) {a : A}
    → (assert b message >> rest) ≡ ok a
    → (b ≡ true) × (rest ≡ ok a)
assert-then true message rest h = (refl, h)
assert-then false message rest h = cc

pub check-then :
    {A : Type 0} (check : Result (Unit {0})) (rest : Result A) {a : A}
    → (check >> rest) ≡ ok a
    → (check ≡ ok tt) × (rest ≡ ok a)
check-then (ok tt) rest h = (refl, h)
check-then (raise e) rest h = cc

module _ {A B : Type 0} where
  pub pair-eq :
      (a c : A) (b d : B) → ◌≡◌ {A = Result (A × B)} (ok (a, b)) (ok (c, d)) → (a ≡ c) × (b ≡ d)
  pair-eq a c b d h = (cc, cc)

pub both_true : (a b : Bool) → (a && b) ≡ true → (a ≡ true) × (b ≡ true)
both_true a b h = ground arith

pub eq_false_of_not : (a : Bool) → not a ≡ true → a ≡ false
eq_false_of_not a h = ground arith
