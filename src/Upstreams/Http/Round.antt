-- ===== src/Upstreams/Http/Round.antt =====
-- One attempt of `request`: what an answer means, and what the pause behind a failure does.
use landscape_openwrt.Base.{
  ℕ, suc, ◌+◌, ◌-◌, ◌≤◌, ◌<◌, ◌*◌, ◌^◌, ltb, min, ◌≡◌, refl, Option, none, some, [], ◌∷◌, List,
  arith, Bool, true, false, Text, Bytes, Headers, Error, Result, ok, raise, if◌then◌else◌, leb,
  http_error, network_error, other_error, value_error, invalid_sleep, Bool-cases, inl, inr,
}
use landscape_openwrt.Platform.{
  Platform, IsLawful, Float, nan, negative, negative_infinite, Answer, response, http_failure,
  network_failure, other_failure,
}
use landscape_openwrt.Io.{Io, World, Event, ◌>>◌, slept}
use landscape_openwrt.Action.Laws.{>>=-keeps}
use landscape_openwrt.Upstreams.Http.{
  is_retry_status, retry_after, retry_delay, cap_delay, overflow_error, after_failure,
  handle_answer, sleep,
}
use landscape_openwrt.Upstreams.Http.Delay.{longest, backoff-le}

-- What one answer means for the whole request: it settles it, or it leaves an error behind.
pub data Verdict : Type 0 where
  settled : Result (Bytes × Headers) → Verdict
  again : Error → Verdict

abbrev pub verdict : Answer → Verdict
verdict (response body hs) = settled (ok (body, hs))
verdict (http_failure code hs) =
    if is_retry_status code
    then again (http_error code hs)
    else settled (raise (http_error code hs))
verdict (network_failure e) = again (network_error e)
verdict (other_failure e) = settled (raise (other_error e))

-- A delay that `time.sleep` accepts.
abbrev pub can_sleep : Option Float → Bool
can_sleep (some nan) = false
can_sleep (some (negative n)) = false
can_sleep (some negative_infinite) = false
can_sleep _ = true

abbrev pub CanWait : Platform → Answer → Type 0
CanWait py (http_failure code hs) = can_sleep (retry_after py (some hs)) ≡ true
CanWait py _ = Unit

-- How often the run has waited.
abbrev pub sleeps : List Event → ℕ
sleeps [] = 0
sleeps (slept n ∷ log) = suc (sleeps log)
sleeps (_ ∷ log) = sleeps log

-- How often the run has waited for more than 75 seconds.
abbrev pub long_sleeps : List Event → ℕ
long_sleeps [] = 0
long_sleeps (slept n ∷ log) = let rest = long_sleeps log in if leb n longest then rest else suc rest
long_sleeps (_ ∷ log) = long_sleeps log

can_sleep-none : (py : Platform) → can_sleep (retry_after py none) ≡ true
unfolding retry_after
can_sleep-none py = refl

module _ (py : Platform) where
  module _ (url : Text) (attempt : ℕ) (e : Error) (hs : Option Headers) (w : World) where
    after_failure-ok :
        can_sleep (retry_after py hs) ≡ true → (after_failure py url attempt e hs w).0 ≡ ok tt
    unfolding after_failure
    after_failure-ok h = ground arith

    pub calls-after_failure : (after_failure py url attempt e hs w).1.calls ≡ w.calls
    unfolding after_failure
    calls-after_failure = ground arith

    pub sleeps-after_failure :
        sleeps (after_failure py url attempt e hs w).1.log ≤ sleeps w.log + min 1 (4 - attempt)
    unfolding after_failure
    sleeps-after_failure = ground arith

    pub long_sleeps-after_failure :
        IsLawful py
        → long_sleeps (after_failure py url attempt e hs w).1.log ≤ long_sleeps w.log + 0
    unfolding after_failure sleep
    long_sleeps-after_failure law =
        ground (arith, backoff-le attempt (py.random w.draws) (law.random_lt w.draws))

    retry_delay-below_zero :
        (n : ℕ)
        → retry_after py hs ≡ some (negative n)
        → retry_delay py attempt hs w ≡ (ok (negative n), w)
    unfolding retry_delay cap_delay
    retry_delay-below_zero n h = ground arith

    pub after_failure-below_zero :
        (n : ℕ)
        → retry_after py hs ≡ some (negative n)
        → attempt < 4
        → (after_failure py url attempt e hs w).0
          ≡ raise (if ltb (2 ^ 117) (n * 10 ^ 9) then overflow_error else value_error invalid_sleep)
    unfolding after_failure sleep
    after_failure-below_zero n h k =
        let b : ltb attempt 4 ≡ true = ground arith in rw (retry_delay-below_zero n h, b) refl

  -- One round, whatever follows it.
  module _ (url : Text) (attempt : ℕ) (next : Error → Io (Bytes × Headers)) (w : World) where
    pub handle_answer-settled :
        (a : Answer) (r : Result (Bytes × Headers))
        → verdict a ≡ settled r
        → handle_answer py url attempt a next w ≡ (r, w)
    unfolding handle_answer
    handle_answer-settled a r h = ground arith

    pub handle_answer-again :
        (a : Answer) (e : Error)
        → CanWait py a
        → verdict a ≡ again e
        → (u : World) × (handle_answer py url attempt a next w ≡ next e u) × (u.calls ≡ w.calls)
    unfolding handle_answer
    handle_answer-again (response body hs) e c h = cc
    handle_answer-again (http_failure code hs) e c h = (
      (after_failure py url attempt e (some hs) w).1,
      ground (arith, after_failure-ok url attempt e (some hs) w),
      calls-after_failure url attempt e (some hs) w,
    )
    handle_answer-again (network_failure x) e c h = (
      (after_failure py url attempt e none w).1,
      ground (arith, after_failure-ok url attempt e none w, can_sleep-none py),
      calls-after_failure url attempt e none w,
    )
    handle_answer-again (other_failure x) e c h = cc

    pub handle_answer-raise :
        (code : ℕ) (hs : Headers) (x : Error)
        → is_retry_status code ≡ true
        → (after_failure py url attempt (http_error code hs) (some hs) w).0 ≡ raise x
        → handle_answer py url attempt (http_failure code hs) next w
          ≡ (raise x, (after_failure py url attempt (http_error code hs) (some hs) w).1)
    unfolding handle_answer
    handle_answer-raise code hs x e h = ground arith

    -- What a measure of the run gains in a round, if the next rounds gain at most `n`.
    module _ (size : World → ℕ) (k n : ℕ)
        (pause : (e : Error) (hs : Option Headers)
          → size (after_failure py url attempt e hs w).1 ≤ size w + k)
        (more : (e : Error) (u : World) → size (next e u).1 ≤ size u + n) where
      pause-gains :
          (e : Error) (hs : Option Headers)
          → size ((after_failure py url attempt e hs >> next e) w).1 ≤ size w + (k + n)
      pause-gains e hs =
          >>=-keeps (λ u. size u ≤ size w + k) (λ u. size u ≤ size w + (k + n)) (λ _. next e)
            (after_failure py url attempt e hs) w (pause e hs) (λ u p. omega arith)
            (λ _ u p. omega (arith, more e u))

      pub handle_answer-gains :
          (a : Answer) → size (handle_answer py url attempt a next w).1 ≤ size w + (k + n)
      unfolding handle_answer
      handle_answer-gains (response body hs) = omega arith
      handle_answer-gains (http_failure code hs) = elim (Bool-cases (is_retry_status code)) [
        | inl e ↦ rw e (pause-gains (http_error code hs) (some hs))
        | inr e ↦ rw e (omega arith)
      ]
      handle_answer-gains (network_failure x) = pause-gains (network_error x) none
      handle_answer-gains (other_failure x) = omega arith
