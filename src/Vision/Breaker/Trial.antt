-- ===== src/Vision/Breaker/Trial.antt =====
-- At most one trial passes outside the closed state.
use blind_llm_eyes.Base.{ℕ, ◌+◌, ◌≤◌, ◌≡◌, ◌≢◌, refl, true, List, [], ◌∷◌, if◌then◌else◌, arith}
use blind_llm_eyes.Vision.Breaker.{CircuitBreaker, cb_closed, cb_half_open, allow}

-- The number of calls that pass, of calls to Allow at the given times and nothing between them.
pub passed : CircuitBreaker → List ℕ → ℕ
passed cb [] = 0
passed cb (t ∷ ts) = (if (allow t cb).1 then 1 else 0) + passed (allow t cb).0 ts

in_flight_refuses :
    (cb : CircuitBreaker) (ts : List ℕ)
    → cb.state ≡ cb_half_open
    → cb.half_open_trial_in_flight ≡ true
    → passed cb ts ≡ 0
unfolding passed allow
in_flight_refuses cb [] h f = refl
in_flight_refuses cb (t ∷ ts) h f = ground (arith, in_flight_refuses cb ts h f)

-- Outside the closed state at most one of any number of calls passes before a result is recorded.
pub passed-le-one : (cb : CircuitBreaker) (ts : List ℕ) → cb.state ≢ cb_closed → passed cb ts ≤ 1
unfolding passed allow
passed-le-one cb [] h = omega arith
passed-le-one cb (t ∷ ts) h =
    ground (arith, in_flight_refuses (allow t cb).0 ts, passed-le-one (allow t cb).0 ts)
