-- ===== src/Upstreams/Http/Delay.antt =====
-- How long `request` waits between two attempts.
use landscape_openwrt.Base.{ℕ, zero, suc, ◌+◌, ◌*◌, ◌^◌, ◌≤◌, ◌<◌, arith, min}
use landscape_openwrt.Upstreams.Http.{second, base_delay, max_delay, backoff}

-- Two consecutive backoffs of the five attempts grow, whatever the jitter drew.
pub backoff_grows :
    (attempt r s : ℕ)
    → attempt < 4
    → r < 2 ^ 53
    → s < 2 ^ 53
    → backoff attempt r < backoff (suc attempt) s
unfolding backoff
backoff_grows zero r s h p q = omega arith
backoff_grows (suc zero) r s h p q = omega arith
backoff_grows (suc (suc zero)) r s h p q = omega arith
backoff_grows (suc (suc (suc zero))) r s h p q = omega arith
backoff_grows (suc (suc (suc (suc n)))) r s h p q = absurd (omega arith)

-- 75 seconds, the longest backoff.
abbrev pub longest : ℕ
longest = 75 * second

mul-le-longest : (m r : ℕ) → m ≤ 60 → r < 2 ^ 53 → m * (3 * 2 ^ 52 + r) ≤ longest
mul-le-longest m r h k = grind arith

pub backoff-le : (attempt r : ℕ) → r < 2 ^ 53 → backoff attempt r ≤ longest
unfolding backoff
backoff-le attempt r h = mul-le-longest (min (base_delay * 2 ^ attempt) max_delay) r (omega arith) h
