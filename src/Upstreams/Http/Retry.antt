-- ===== src/Upstreams/Http/Retry.antt =====
-- What `request` returns, how often it asks, and how long it waits.
use landscape_openwrt.Base.{
  ℕ, zero, suc, ◌+◌, ◌-◌, ◌≤◌, ◌*◌, ◌^◌, ltb, if◌then◌else◌, min, ◌≡◌, refl, sym, subst, ◌⊎◌, inl,
  inr, some, [], ◌∷◌, List, arith, true, All, Text, Bytes, Headers, Error, Result, raise,
  http_error, type_error, value_error, invalid_sleep,
}
use landscape_openwrt.Platform.{Platform, IsLawful, Answer, http_failure, negative}
use landscape_openwrt.Io.{World, opened}
use landscape_openwrt.Upstreams.Http.{
  is_retry_status, retry_after, overflow_error, attempt_from, request, with_agent,
}
use landscape_openwrt.Upstreams.Http.Round.{
  Verdict, settled, again, verdict, CanWait, sleeps, long_sleeps, calls-after_failure,
  sleeps-after_failure, long_sleeps-after_failure, after_failure-below_zero, handle_answer-raise,
  handle_answer-settled, handle_answer-again, handle_answer-gains,
}

-- The first answer that settles a request, or else the last error.
abbrev pub first_settled : List Answer → Error → Result (Bytes × Headers)
first_settled [] last = raise last
first_settled (a ∷ rest) last = elim (verdict a) [ settled r ↦ r | again e ↦ first_settled rest e ]

-- How many of the answers are asked for.
abbrev pub asked : List Answer → ℕ
asked [] = 0
asked (a ∷ rest) = elim (verdict a) [ settled r ↦ 1 | again e ↦ suc (asked rest) ]

verdict-cases :
    (v : Verdict)
    → ((r : Result (Bytes × Headers)) × (v ≡ settled r)) ⊎ ((e : Error) × (v ≡ again e))
verdict-cases (settled r) = inl (r, refl)
verdict-cases (again e) = inr (e, refl)

module _ (py : Platform) (url : Text) (hs : Headers) where
  -- The next `n` answers of the network, the first of them to call number `call`.
  abbrev pub next_answers : ℕ → ℕ → List Answer
  next_answers zero call = []
  next_answers (suc n) call = py.urlopen call url hs ∷ next_answers n (call + 1)

  -- The run behind one more request.
  abbrev after_open : World → World
  after_open w = record w { calls = w.calls + 1; log = opened url hs ∷ w.log }

  attempt_from-eq-first_settled :
      (left attempt : ℕ) (last : Error) (w : World)
      → All (CanWait py) (next_answers left w.calls)
      → ((attempt_from py url hs left attempt last w).0
          ≡ first_settled (next_answers left w.calls) last)
        × ((attempt_from py url hs left attempt last w).1.calls
            ≡ w.calls + asked (next_answers left w.calls))
  unfolding attempt_from
  attempt_from-eq-first_settled zero attempt last w h = (refl, omega arith)
  attempt_from-eq-first_settled (suc left) attempt last w h =
      elim (verdict-cases (verdict (py.urlopen w.calls url hs))) [
        | inl (r, e) ↦ ground (
          arith,
          handle_answer-settled py url attempt
              (λ (x : Error). attempt_from py url hs left (attempt + 1) x) (after_open w)
              (py.urlopen w.calls url hs) r e,
        )
        | inr (x, e) ↦
            let (u, q, c) =
              handle_answer-again py url attempt
                (λ (x : Error). attempt_from py url hs left (attempt + 1) x) (after_open w)
                (py.urlopen w.calls url hs) x h.0 e in
            let c' : u.calls ≡ w.calls + 1 = c in
            ground (
              arith,
              q,
              c',
              attempt_from-eq-first_settled left (attempt + 1) x u
                  (subst (λ (n : ℕ). All (CanWait py) (next_answers left n)) (sym c') h.1),
            )
      ]

  calls-attempt_from :
      (left attempt : ℕ) (last : Error) (w : World)
      → (attempt_from py url hs left attempt last w).1.calls ≤ w.calls + left
  unfolding attempt_from
  calls-attempt_from zero attempt last w = omega arith
  calls-attempt_from (suc left) attempt last w = omega (
    arith,
    handle_answer-gains py url attempt (λ (x : Error). attempt_from py url hs left (attempt + 1) x)
        (after_open w) (λ (u : World). u.calls) 0 left
        (λ x more. omega (arith, calls-after_failure py url attempt x more (after_open w)))
        (λ x u. calls-attempt_from left (attempt + 1) x u) (py.urlopen w.calls url hs),
  )

  sleeps-attempt_from :
      (left attempt : ℕ) (last : Error) (w : World)
      → left + attempt ≡ 5
      → sleeps (attempt_from py url hs left attempt last w).1.log ≤ sleeps w.log + (left - 1)
  unfolding attempt_from
  sleeps-attempt_from zero attempt last w h = omega arith
  sleeps-attempt_from (suc left) attempt last w h = omega (
    arith,
    handle_answer-gains py url attempt (λ (x : Error). attempt_from py url hs left (attempt + 1) x)
        (after_open w) (λ (u : World). sleeps u.log) (min 1 left) (left - 1)
        (λ x more. omega (arith, sleeps-after_failure py url attempt x more (after_open w)))
        (λ x u. sleeps-attempt_from left (attempt + 1) x u (omega arith))
        (py.urlopen w.calls url hs),
  )

  long_sleeps-attempt_from :
      IsLawful py
      → (left attempt : ℕ) (last : Error) (w : World)
      → long_sleeps (attempt_from py url hs left attempt last w).1.log ≤ long_sleeps w.log + 0
  unfolding attempt_from
  long_sleeps-attempt_from law zero attempt last w = omega arith
  long_sleeps-attempt_from law (suc left) attempt last w =
      handle_answer-gains py url attempt
        (λ (x : Error). attempt_from py url hs left (attempt + 1) x) (after_open w)
        (λ (u : World). long_sleeps u.log) 0 0
        (λ x more. long_sleeps-after_failure py url attempt x more (after_open w) law)
        (λ x u. long_sleeps-attempt_from law left (attempt + 1) x u) (py.urlopen w.calls url hs)

module _ (py : Platform) (url : Text) (hs : Headers) (w : World) where
  -- If no transient failure among the next five answers names a delay that cannot be slept, then a
  -- request returns or raises what the first answer says that is no transient failure, raises the
  -- last failure if all five are transient, and asks for no answer behind the one that settles it.
  pub request-eq-first_settled :
      All (CanWait py) (next_answers py url (with_agent hs) 5 w.calls)
      → ((request py url hs w).0
          ≡ first_settled (next_answers py url (with_agent hs) 5 w.calls) type_error)
        × ((request py url hs w).1.calls
            ≡ w.calls + asked (next_answers py url (with_agent hs) 5 w.calls))
  unfolding request
  request-eq-first_settled h =
      attempt_from-eq-first_settled py url (with_agent hs) 5 0 type_error w h

  -- Whatever the network answers, a request opens its URL at most five times and waits at most four
  -- times, and never longer than 75 seconds at a time.
  pub request_bounds :
      IsLawful py
      → ((request py url hs w).1.calls ≤ w.calls + 5)
        × (sleeps (request py url hs w).1.log ≤ sleeps w.log + 4)
        × (long_sleeps (request py url hs w).1.log ≤ long_sleeps w.log)
  unfolding request
  request_bounds law = (
    calls-attempt_from py url (with_agent hs) 5 0 type_error w,
    sleeps-attempt_from py url (with_agent hs) 5 0 type_error w (omega arith),
    omega (arith, long_sleeps-attempt_from py url (with_agent hs) law 5 0 type_error w),
  )

  -- If the first answer is a transient failure whose Retry-After is a negative number of seconds, then the
  -- request ends at once and not with a retry: with the `ValueError` of `time.sleep`, or with its
  -- `OverflowError` if the number is more than 2^63 nanoseconds below zero.
  pub request-below_zero :
      (code : ℕ) (failed : Headers) (n : ℕ)
      → py.urlopen w.calls url (with_agent hs) ≡ http_failure code failed
      → is_retry_status code ≡ true
      → retry_after py (some failed) ≡ some (negative n)
      → ((request py url hs w).0
          ≡ raise
              (if ltb (2 ^ 117) (n * 10 ^ 9) then overflow_error else value_error invalid_sleep))
        × ((request py url hs w).1.calls ≡ w.calls + 1)
  unfolding request attempt_from
  request-below_zero code failed n e retry bad =
      let v = after_open py url (with_agent hs) w in
      let x = http_error code failed in
      rw e (
        ground (
          arith,
          handle_answer-raise py url 0 (λ (y : Error). attempt_from py url (with_agent hs) 4 1 y) v
              code failed _ retry
              (after_failure-below_zero py url 0 x (some failed) v n bad (omega arith)),
          calls-after_failure py url 0 x (some failed) v,
        ))
