-- ===== src/Vision/Breaker/Invariant.antt =====
-- What holds of a circuit breaker after any history of calls.
use blind_llm_eyes.Base.{◌<◌, ◌≡◌, ◌≢◌, refl, true, none, List, [], ◌∷◌, ℤ, positive_or_pos, arith}
use blind_llm_eyes.Vision.Breaker.{
  CircuitBreaker, CbState, cb_closed, cb_half_open, new_circuit_breaker, Call, allows, successes,
  failures, step, run, default_reset,
}

pub record IsValid (cb : CircuitBreaker) : Type 0 where
  pub threshold_pos : 0 < cb.failure_threshold
  pub reset_pos : 0 < cb.reset_timeout
  -- a closed breaker is short of its threshold
  pub below : cb.state ≡ cb_closed → cb.consecutive_fails < cb.failure_threshold
  -- one that has tripped knows when
  pub dated : cb.state ≢ cb_closed → cb.opened_at ≢ none
  -- a trial is in flight exactly in the half-open state
  pub trial : cb.half_open_trial_in_flight ≡ true → cb.state ≡ cb_half_open
  pub probing : cb.state ≡ cb_half_open → cb.half_open_trial_in_flight ≡ true

pub new-IsValid : (threshold reset : ℤ) → IsValid (new_circuit_breaker threshold reset)
unfolding new_circuit_breaker
new-IsValid threshold reset = ground (
  arith,
  positive_or_pos 5 threshold (omega arith),
  positive_or_pos default_reset reset (omega arith),
)

step_state-IsValid :
    (s : CbState) (cb : CircuitBreaker) (c : Call) → cb.state ≡ s → IsValid cb → IsValid (step cb c)
unfolding step
step_state-IsValid s cb (allows now) e v = ground arith
step_state-IsValid s cb (successes now) e v = ground arith
step_state-IsValid s cb (failures now) e v = ground arith

pub step-IsValid : (cb : CircuitBreaker) (c : Call) → IsValid cb → IsValid (step cb c)
step-IsValid cb c v = step_state-IsValid cb.state cb c refl v

-- A valid breaker is valid after any history of calls: a closed one is short of its threshold, one
-- that has tripped knows when, and a trial is in flight exactly in the half-open state.
pub run-IsValid : (cb : CircuitBreaker) (cs : List Call) → IsValid cb → IsValid (run cb cs)
unfolding run
run-IsValid cb [] v = v
run-IsValid cb (c ∷ cs) v = run-IsValid (step cb c) cs (step-IsValid cb c v)
