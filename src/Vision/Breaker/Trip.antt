-- ===== src/Vision/Breaker/Trip.antt =====
-- How a closed breaker opens, and how an open one answers.
use blind_llm_eyes.Base.{
  ℕ, ◌+◌, ◌-◌, ◌<◌, ◌≡◌, List, [], ◌∷◌, map, ltb, leb, if◌then◌else◌, length, arith,
}
use blind_llm_eyes.Vision.Breaker.{
  CircuitBreaker, cb_closed, cb_open, cb_half_open, failures, allow, record_failure, step, run,
}
use blind_llm_eyes.Vision.Breaker.Invariant.{IsValid}

stays_open :
    (cb : CircuitBreaker) (ts : List ℕ)
    → cb.state ≡ cb_open
    → (run cb (map failures ts)).state ≡ cb_open
unfolding run step
stays_open cb [] o = o
stays_open cb (t ∷ ts) o = stays_open (step cb (failures t)) ts (ground arith)

failures_open :
    (cb : CircuitBreaker) (ts : List ℕ)
    → cb.consecutive_fails < cb.failure_threshold
    → cb.state ≡ cb_closed
    → (run cb (map failures ts)).state
      ≡ (if ltb (cb.consecutive_fails + length ts) cb.failure_threshold then cb_closed else cb_open)
unfolding run step
failures_open cb [] h c = ground arith
failures_open cb (t ∷ ts) h c =
    ground (arith, failures_open (step cb (failures t)) ts, stays_open (step cb (failures t)) ts)

-- Failures alone, at whatever times, open a valid closed breaker exactly when the count of
-- consecutive failures reaches the threshold.
pub run-failures :
    (cb : CircuitBreaker) (ts : List ℕ)
    → IsValid cb
    → cb.state ≡ cb_closed
    → (run cb (map failures ts)).state
      ≡ (if ltb (cb.consecutive_fails + length ts) cb.failure_threshold then cb_closed else cb_open)
run-failures cb ts v c = failures_open cb ts (v.below c) c

-- A trial that fails opens the breaker again: from then on a call passes exactly when the whole
-- reset timeout has gone by since that failure.
pub allow-record_failure :
    (cb : CircuitBreaker) (t now : ℕ)
    → cb.state ≡ cb_half_open
    → (allow now (record_failure t cb)).1 ≡ leb cb.reset_timeout (now - t)
unfolding allow record_failure
allow-record_failure cb t now h = ground arith
