-- ===== src/Upstreams/Http/Trace.antt =====
-- A request does nothing to the world but open its URL, warn and wait.
use landscape_openwrt.Base.{
  ℕ, zero, suc, ◌+◌, ◌≡◌, sym, inl, inr, Bool, true, false, Option, none, some, List, ◌∷◌, arith,
  subst, if◌then◌else◌, Bool-cases, ltb, Text, Bytes, Headers, Error, http_error, network_error,
  type_error,
}
use landscape_openwrt.Platform.{
  Platform, Float, nan, negative, infinite, negative_infinite, ticks, Answer, response,
  http_failure, network_failure, other_failure,
}
use landscape_openwrt.Io.{Io, World, Event, opened, warned, slept, emit, pure, ◌>>◌}
use landscape_openwrt.Action.Laws.{Keeps, Keeps-bind, Keeps-then}
use landscape_openwrt.Upstreams.Http.{
  is_retry_status, retry_delay, sleep, after_failure, handle_answer, attempt_from, with_agent,
  request, attempts,
}

module _ (py : Platform) (P : List Event → Type 0)
    (after_opened : (url : Text) (hs : Headers) (log : List Event)
      → P log
      → P (opened url hs ∷ log))
    (after_warned : (url : Text) (e : Error) (d : Float) (n : ℕ) (log : List Event)
      → P log
      → P (warned url e d n ∷ log))
    (after_slept : (n : ℕ) (log : List Event) → P log → P (slept n ∷ log)) where
  abbrev Holds : World → Type 0
  Holds w = P w.log

  log-retry_delay :
      (attempt : ℕ) (hs : Option Headers) (w : World) → (retry_delay py attempt hs w).1.log ≡ w.log
  unfolding retry_delay
  log-retry_delay attempt hs w = ground arith

  sleep-Keeps : (d : Float) → Keeps Holds (sleep py d)
  unfolding sleep
  sleep-Keeps (ticks n) w h = after_slept n w.log h
  sleep-Keeps infinite w h = h
  sleep-Keeps nan w h = h
  sleep-Keeps negative_infinite w h = h
  sleep-Keeps (negative n) w h = h

  pause-Keeps :
      (b : Bool) (url : Text) (e : Error) (d : Float) (n : ℕ)
      → Keeps Holds (if b then (do emit (warned url e d n); sleep py d) else pure tt)
  pause-Keeps true url e d n w h = sleep-Keeps d _ (after_warned url e d n w.log h)
  pause-Keeps false url e d n w h = h

  after_failure-Keeps :
      (url : Text) (attempt : ℕ) (e : Error) (hs : Option Headers)
      → Keeps Holds (after_failure py url attempt e hs)
  unfolding after_failure
  after_failure-Keeps url attempt e hs =
      Keeps-bind Holds (retry_delay py attempt hs) _
        (λ w h. subst P (sym (log-retry_delay attempt hs w)) h)
        (λ d. pause-Keeps (ltb attempt 4) url e d (attempt + 1))

  handle_answer-Keeps :
      (url : Text) (attempt : ℕ) (a : Answer) (next : Error → Io (Bytes × Headers))
      → ((e : Error) → Keeps Holds (next e))
      → Keeps Holds (handle_answer py url attempt a next)
  unfolding handle_answer
  handle_answer-Keeps url attempt (response body hs) next k w h = h
  handle_answer-Keeps url attempt (http_failure code hs) next k w h =
      elim (Bool-cases (is_retry_status code)) [
        | inl e ↦ rw e (
            Keeps-then Holds (after_failure py url attempt (http_error code hs) (some hs))
              (next (http_error code hs))
              (after_failure-Keeps url attempt (http_error code hs) (some hs))
              (k (http_error code hs)) w h)
        | inr e ↦ rw e h
      ]
  handle_answer-Keeps url attempt (network_failure x) next k w h =
      Keeps-then Holds (after_failure py url attempt (network_error x) none)
        (next (network_error x)) (after_failure-Keeps url attempt (network_error x) none)
        (k (network_error x)) w h
  handle_answer-Keeps url attempt (other_failure x) next k w h = h

  attempt_from-Keeps :
      (url : Text) (hs : Headers) (left attempt : ℕ) (last : Error)
      → Keeps Holds (attempt_from py url hs left attempt last)
  unfolding attempt_from
  attempt_from-Keeps url hs zero attempt last w h = h
  attempt_from-Keeps url hs (suc left) attempt last w h =
      handle_answer-Keeps url attempt (py.urlopen w.calls url hs) _
        (λ e. attempt_from-Keeps url hs left (attempt + 1) e) _ (after_opened url hs w.log h)

  pub request-Keeps : (url : Text) (hs : Headers) → Keeps Holds (request py url hs)
  unfolding request
  request-Keeps url hs = attempt_from-Keeps url (with_agent hs) attempts 0 type_error
