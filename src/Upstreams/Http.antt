-- ===== src/Upstreams/Http.antt =====
-- `retry_delay`, `request` and `json_request` of scripts/upstreams.py: a GET that retries transient
-- failures. A delay is counted in ticks of 2^-54 seconds.
pub mod Delay
pub mod Round
pub mod Retry
pub mod Trace
use landscape_openwrt.Base.{
  ℕ, zero, suc, ◌+◌, ◌*◌, ◌-◌, ◌^◌, min, Bool, true, false, ◌&&◌, ◌||◌, Option, none, some, List,
  [], ◌∷◌, ltb, leb, eqb, if◌then◌else◌, Text, Bytes, codes, ◌==◌, map, Headers, Error, Result, ok,
  raise, value_error, invalid_sleep, invalid_json, type_error, http_error, network_error,
  other_error,
}
use landscape_openwrt.Base.Dict
use landscape_openwrt.Json.{Json}
use landscape_openwrt.Platform.{
  Platform, Float, nan, negative, infinite, negative_infinite, ticks, response, http_failure,
  network_failure, other_failure, Answer,
}
use landscape_openwrt.Io.{Io, World, pure, throw, lift, emit, opened, warned, slept, ◌>>=◌, ◌>>◌}

abbrev pub attempts : ℕ
attempts = 5

abbrev pub second : ℕ
second = 2 ^ 54

abbrev pub base_delay : ℕ
base_delay = 3

abbrev pub max_delay : ℕ
max_delay = 60

-- `code in HTTP_RETRY_STATUS`
unfoldable pub is_retry_status : ℕ → Bool
is_retry_status code =
    eqb code 408
    || eqb code 425
    || eqb code 429
    || eqb code 500
    || eqb code 502
    || eqb code 503
    || eqb code 504
    || eqb code 507
    || eqb code 509
    || eqb code 522
    || eqb code 524

lower : ℕ → ℕ
lower c = if leb b'A' c && leb c b'Z' then c + 32 else c

-- `headers.get(name)` of a response: the case of a header's name does not count.
unfoldable pub header : Text → Headers → Option Text
unfolding lower
header name [] = none
header name ((k, v) ∷ hs) =
    let rest = header name hs in if map lower k == map lower name then some v else rest

-- `min(delay, HTTP_MAX_DELAY)` of a float: the first argument, unless the second is less.
unfoldable pub cap_delay : Float → Float
cap_delay (ticks n) = ticks (min n (max_delay * second))
cap_delay infinite = ticks (max_delay * second)
cap_delay d = d

-- The backoff of an attempt, with the random number `r` in units of 2^-53: the base times a factor
-- from 0.75 up to 1.25.
unfoldable pub backoff : ℕ → ℕ → ℕ
backoff attempt r = min (base_delay * 2 ^ attempt) max_delay * (3 * 2 ^ 52 + r)

-- `headers.get("Retry-After") if headers else None`, and the `float` of it: `none` where the program
-- falls back on the backoff.
unfoldable pub retry_after : Platform → Option Headers → Option Float
unfolding header
retry_after py none = none
retry_after py (some hs) = elim (header (codes "Retry-After") hs) [
  | none ↦ none
  | some value ↦ if value == [] then none else py.parse_float value
]

-- `{"User-Agent": USER_AGENT, **(headers or {})}`
unfoldable pub with_agent : Headers → Headers
unfolding Dict.update
with_agent headers = Dict.update ((codes "User-Agent", codes "landscape-openwrt") ∷ []) headers

abbrev pub overflow_error : Error
overflow_error = other_error (codes "OverflowError")

module _ (py : Platform) where
  -- `random.random()`
  unfoldable pub draw : Io ℕ
  draw w = (ok (py.random w.draws), record w { draws = w.draws + 1 })

  unfoldable pub retry_delay : ℕ → Option Headers → Io Float
  unfolding retry_after cap_delay draw
  retry_delay attempt headers = elim (retry_after py headers) [
    | some seconds ↦ pure (cap_delay seconds)
    | none ↦ do r ← draw; pure (ticks (backoff attempt r))
  ]

  -- `urlopen` and `response.read()`
  unfoldable pub open_url : Text → Headers → Io Answer
  open_url url headers w = (
    ok (py.urlopen w.calls url headers),
    record w { calls = w.calls + 1; log = opened url headers ∷ w.log },
  )

  -- `time.sleep(delay)`, of a delay that is capped. One that is more than 2^63 nanoseconds below zero does
  -- not fit into 64 bits.
  unfoldable pub sleep : Float → Io Unit
  sleep (ticks n) = emit (slept n)
  sleep infinite = throw overflow_error
  sleep negative_infinite = throw overflow_error
  sleep (negative n) =
      throw (if ltb (2 ^ 117) (n * 10 ^ 9) then overflow_error else value_error invalid_sleep)
  sleep nan = throw (value_error invalid_sleep)

  -- What follows a transient failure: the delay is computed in any case, and waited for unless this
  -- was the last attempt.
  unfoldable pub after_failure : Text → ℕ → Error → Option Headers → Io Unit
  unfolding retry_delay sleep
  after_failure url attempt error headers = do
    delay ← retry_delay attempt headers
    if ltb attempt (attempts - 1)
        then (do emit (warned url error delay (attempt + 1)); sleep delay)
        else pure tt

  -- The `try` statement of `request` on one answer, before the next attempt.
  unfoldable pub handle_answer :
      Text → ℕ → Answer → (Error → Io (Bytes × Headers)) → Io (Bytes × Headers)
  handle_answer url attempt (response body hs) next = pure (body, hs)
  handle_answer url attempt (http_failure code hs) next =
      if is_retry_status code
      then (do after_failure url attempt (http_error code hs) (some hs); next (http_error code hs))
      else throw (http_error code hs)
  handle_answer url attempt (network_failure e) next = do
    after_failure url attempt (network_error e) none
    next (network_error e)
  handle_answer url attempt (other_failure e) next = throw (other_error e)

  -- The `for` loop of `request`, with the attempts that are left and the error of the last one.
  unfoldable pub attempt_from : Text → Headers → ℕ → ℕ → Error → Io (Bytes × Headers)
  unfolding open_url
  attempt_from url headers zero attempt last = throw last
  attempt_from url headers (suc left) attempt last = do
    answer ← open_url url headers
    handle_answer url attempt answer λ e. attempt_from url headers left (attempt + 1) e

  -- The error before the first attempt stands for `None`, which cannot be raised.
  unfoldable pub request : Text → Headers → Io (Bytes × Headers)
  request url headers = attempt_from url (with_agent headers) attempts 0 type_error

  -- `json.loads(data)`
  abbrev pub load_json : Bytes → Result Json
  load_json b = elim (py.loads b) [ some j ↦ ok j | none ↦ raise (value_error invalid_json) ]

  unfoldable pub json_request : Text → Headers → Io Json
  json_request url headers = do (body, _) ← request url headers; lift (load_json body)
