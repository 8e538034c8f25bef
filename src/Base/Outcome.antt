-- ===== src/Base/Outcome.antt =====
-- Exceptions as values: what the program raises or lets through, and pure code that may raise.
use mathlib.Core.Path.{◌≡◌, refl}
use mathlib.Core.Bool.{Bool, true, false}
use mathlib.Core.List.{List, [], ◌∷◌}
use Prim.Native.Nat.{ℕ}
use landscape_openwrt.Base.Strings.{Text}

-- The headers of a request or of a response, in order.
abbrev pub Headers : Type 0
Headers = List (Text × Text)

-- One constructor for each message of a `ValueError`: those that the program raises itself, then
-- those of `int`, `time.sleep`, `json.loads` and `bytes.decode`.
pub data Reason : Type 0 where
  digest_mismatch unsupported_registry not_one_manifest wrong_platform no_stable_tag : Reason
  no_stable_release not_one_asset asset_digest_required unexpected_asset_url : Reason
  not_one_rootfs_checksum not_one_handler immortalwrt_too_old versions_disagree : Reason
  unexpected_version_format uncommitted_source image_not_on_ghcr not_elf unknown_mode : Reason
  invalid_literal too_many_digits invalid_sleep invalid_json invalid_encoding : Reason

pub data Error : Type 0 where
  value_error : Reason → Error
  key_error : Text → Error
  type_error attribute_error index_error : Error
  -- An `HTTPError` with its status and headers.
  http_error : ℕ → Headers → Error
  -- A `URLError`, an `HTTPException`, a `TimeoutError` or a `ConnectionError`.
  network_error : Text → Error
  -- A `CalledProcessError`, a `TimeoutExpired`, a `RuntimeError` with its message.
  process_error timeout_error : Error
  runtime_error : Text → Error
  -- An `AssertionError` with its message.
  assertion_error : Text → Error
  -- Any other exception of a library call.
  other_error : Text → Error

-- A value, or the exception that was raised instead.
pub data Result {ℓ} (A : Type ℓ) : Type ℓ where
  ok : A → Result A
  raise : Error → Result A

-- `if not test: raise ValueError(reason)`
abbrev pub require : Bool → Reason → Result (Unit {0})
require true reason = ok tt
require false reason = raise (value_error reason)

-- `assert test, message`
abbrev pub assert : Bool → Text → Result (Unit {0})
assert true message = ok tt
assert false message = raise (assertion_error message)

module _ {ℓ κ} {A : Type ℓ} {B : Type κ} where
  -- The statements behind one that may raise.
  infixl 5 ◌>>=◌
  abbrev pub ◌>>=◌ : Result A → (A → Result B) → Result B
  ok value >>= next = next value
  raise e >>= next = raise e

module _ {ℓ} {B : Type ℓ} where
  infixl 5 ◌>>◌
  abbrev pub ◌>>◌ : Result (Unit {0}) → Result B → Result B
  check >> next = check >>= λ _. next

module _ {A B : Type 0} where
  -- `[f(x) for x in xs]` where `f` may raise.
  unfoldable pub each : (A → Result B) → List A → Result (List B)
  each f [] = ok []
  each f (x ∷ xs) = let rest = each f xs in do y ← f x; ys ← rest; ok (y ∷ ys)

  -- The first statement gave a value from which the others give the result.
  abbrev pub Passes : B → Result A → (A → Result B) → Type 0
  Passes result first next = (value : A) × (first ≡ ok value) × (next value ≡ ok result)

  pub >>=-eq-ok :
      (first : Result A) (next : A → Result B) {result : B}
      → first >>= next ≡ ok result
      → Passes result first next
  >>=-eq-ok (raise e) next stopped = cc
  >>=-eq-ok (ok value) next reached = (value, refl, reached)

module _ {A : Type 0} where
  -- What a filter keeps, once the test of its item is known.
  abbrev pub kept : Bool → A → List A → List A
  kept true x xs = x ∷ xs
  kept false x xs = xs

  -- `[x for x in xs if p(x)]` where `p` may raise.
  unfoldable pub keep : (A → Result Bool) → List A → Result (List A)
  keep p [] = ok []
  keep p (x ∷ xs) = let rest = keep p xs in do b ← p x; ys ← rest; ok (kept b x ys)
