-- ===== src/Tests/Breaker.antt =====
-- The circuit breaker at concrete inputs.
use blind_llm_eyes.Base.{
  ℕ, false, ◌+◌, ◌≤◌, ◌≡◌, refl, true, some, [], ◌∷◌, map, length, pos, arith, if◌then◌else◌, ltb,
}
use blind_llm_eyes.Vision.Breaker.{
  CircuitBreaker, cb_closed, cb_open, cb_half_open, new_circuit_breaker, allows, failures,
  successes, allow, step, run, stats,
}
use blind_llm_eyes.Vision.Breaker.Invariant.{IsValid, new-IsValid, run-IsValid}
use blind_llm_eyes.Vision.Breaker.Trip.{run-failures}
use blind_llm_eyes.Vision.Breaker.Trial.{passed, passed-le-one}

-- threshold 2, reset after 100
abbrev small : CircuitBreaker
small = record {
  state = cb_closed;
  consecutive_fails = 0;
  failure_threshold = 2;
  reset_timeout = 100;
  opened_at = some 0;
  half_open_trial_in_flight = false;
}

abbrev tripped : CircuitBreaker
tripped = record small { state = cb_open; consecutive_fails = 2; opened_at = some 10 }

abbrev probing : CircuitBreaker
probing = record tripped { state = cb_half_open; half_open_trial_in_flight = true }

small-IsValid : IsValid small
small-IsValid = ground arith

trips_and_recovers :
    run small (failures 5 ∷ failures 10 ∷ allows 110 ∷ successes 120 ∷ [])
    ≡ record small { opened_at = some 10 }
unfolding run step
trips_and_recovers = refl

refuses_while_open : (allow 109 tripped).1 ≡ false
unfolding allow
refuses_while_open = refl

open_for : (stats 60 tripped).opened_ago ≡ 50
unfolding stats
open_for = refl

new-IsValid_example : IsValid (new_circuit_breaker (pos 0) (pos 7))
new-IsValid_example = new-IsValid (pos 0) (pos 7)

run-IsValid_example :
    IsValid (run small (failures 5 ∷ failures 10 ∷ allows 110 ∷ failures 111 ∷ []))
run-IsValid_example =
    run-IsValid small (failures 5 ∷ failures 10 ∷ allows 110 ∷ failures 111 ∷ []) small-IsValid

run-failures_example :
    (run small (map failures (5 ∷ 10 ∷ []))).state
    ≡ (if ltb (0 + length {A = ℕ} (5 ∷ 10 ∷ [])) 2 then cb_closed else cb_open)
run-failures_example = run-failures small (5 ∷ 10 ∷ []) small-IsValid refl

passed-le-one_example : passed tripped (50 ∷ 110 ∷ 111 ∷ 300 ∷ []) ≤ 1
passed-le-one_example = passed-le-one tripped (50 ∷ 110 ∷ 111 ∷ 300 ∷ []) (λ e. cc)
