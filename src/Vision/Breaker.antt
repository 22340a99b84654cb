-- ===== src/Vision/Breaker.antt =====
-- vision/circuit_breaker.go: the three-state circuit breaker. Every method takes the mutex for its
-- whole body, so a history of calls from any number of goroutines is a list of calls.
pub mod Invariant
pub mod Trip
pub mod Trial
use blind_llm_eyes.Base.{
  ℕ, suc, Bool, true, false, Option, none, some, List, [], ◌∷◌, String, ℤ, positive_or, leb,
  if◌then◌else◌, since,
}

pub data CbState : Type 0 where
  cb_closed cb_open cb_half_open : CbState

-- String()
unfoldable pub state_name : CbState → String
state_name cb_closed = "closed"
state_name cb_open = "open"
state_name cb_half_open = "half_open"

-- NumericValue()
unfoldable pub numeric_value : CbState → ℕ
numeric_value cb_closed = 0
numeric_value cb_open = 1
numeric_value cb_half_open = 2

pub record CircuitBreaker : Type 0 where
  pub state : CbState
  pub consecutive_fails : ℕ
  pub failure_threshold : ℕ
  pub reset_timeout : ℕ
  pub opened_at : Option ℕ
  pub half_open_trial_in_flight : Bool

-- 30 * time.Second
abbrev pub default_reset : ℕ
default_reset = 30000000000

unfoldable pub new_circuit_breaker : ℤ → ℤ → CircuitBreaker
new_circuit_breaker failure_threshold reset_timeout = record {
  state = cb_closed;
  consecutive_fails = 0;
  failure_threshold = positive_or 5 failure_threshold;
  reset_timeout = positive_or default_reset reset_timeout;
  opened_at = none;
  half_open_trial_in_flight = false;
}

-- the cases of the `switch` in Allow
allow_in : CbState → ℕ → CircuitBreaker → CircuitBreaker × Bool
allow_in cb_closed now cb = (cb, true)
allow_in cb_open now cb =
    if leb cb.reset_timeout (since now cb.opened_at)
    then (record cb { state = cb_half_open; half_open_trial_in_flight = true }, true)
    else (cb, false)
allow_in cb_half_open now cb =
    if cb.half_open_trial_in_flight
    then (cb, false)
    else (record cb { half_open_trial_in_flight = true }, true)

unfoldable pub allow : ℕ → CircuitBreaker → CircuitBreaker × Bool
unfolding allow_in
allow now cb = allow_in cb.state now cb

unfoldable pub record_success : CircuitBreaker → CircuitBreaker
record_success cb = record cb {
  state = cb_closed;
  consecutive_fails = 0;
  half_open_trial_in_flight = false;
}

-- the cases of the `switch` in RecordFailure, after the counter went up
failure_in : CbState → ℕ → CircuitBreaker → CircuitBreaker
failure_in cb_closed now cb =
    if leb cb.failure_threshold cb.consecutive_fails
    then record cb { state = cb_open; opened_at = some now }
    else cb
failure_in cb_open now cb = cb
failure_in cb_half_open now cb = record cb {
  state = cb_open;
  opened_at = some now;
  half_open_trial_in_flight = false;
}

unfoldable pub record_failure : ℕ → CircuitBreaker → CircuitBreaker
unfolding failure_in
record_failure now cb =
    failure_in cb.state now (record cb { consecutive_fails = suc cb.consecutive_fails })

pub record CbStats : Type 0 where
  pub state : CbState
  pub consecutive_fails : ℕ
  pub failure_threshold : ℕ
  pub reset_timeout : ℕ
  pub opened_ago : ℕ
  pub half_open_in_flight : Bool

opened_ago_in : CbState → ℕ → Option ℕ → ℕ
opened_ago_in cb_open now none = 0
opened_ago_in cb_open now (some t) = since now (some t)
opened_ago_in _ now t = 0

unfoldable pub stats : ℕ → CircuitBreaker → CbStats
unfolding opened_ago_in
stats now cb = record {
  state = cb.state;
  consecutive_fails = cb.consecutive_fails;
  failure_threshold = cb.failure_threshold;
  reset_timeout = cb.reset_timeout;
  opened_ago = opened_ago_in cb.state now cb.opened_at;
  half_open_in_flight = cb.half_open_trial_in_flight;
}

-- A call by some goroutine, at a time.
pub data Call : Type 0 where
  allows successes failures : ℕ → Call

unfoldable pub step : CircuitBreaker → Call → CircuitBreaker
unfolding allow record_success record_failure
step cb (allows now) = (allow now cb).0
step cb (successes now) = record_success cb
step cb (failures now) = record_failure now cb

unfoldable pub run : CircuitBreaker → List Call → CircuitBreaker
run cb [] = cb
run cb (c ∷ cs) = run (step cb c) cs
