-- ===== src/Tests/Adaptive.antt =====
-- The adaptive controller at concrete inputs, over fractions in place of floats.
use blind_llm_eyes.Base.{none, [], some, ◌∷◌, pos, ℕ, ◌≤◌, ◌≡◌, refl, true, false, arith}
use blind_llm_eyes.Tests.Fractions.{fractions}
use blind_llm_eyes.Proxy.Adaptive.{
  Sample, Settings, Controller, push_sample, record_sample, record_all, count_errors, p90,
  sort_latencies, insert_latency, evaluate, increased, adjust, Direction, up, down, current_limit,
  adjusted, p90_ms,
}
use blind_llm_eyes.Proxy.Adaptive.Invariant.{IsValid, record_all_total}
use blind_llm_eyes.Proxy.Adaptive.Control.{errors_never_raise}

abbrev settings : Settings fractions
settings = record {
  enabled = true;
  min_limit = pos 2;
  max_limit = pos 6;
  initial_limit = pos 4;
  fast_threshold_ms = pos 100;
  slow_threshold_ms = pos 200;
  sample_window = pos 2;
  cooldown_ms = pos 10;
  increase_step = pos 1;
  decrease_ratio = (3, 4);
  error_threshold = (1, 10);
}

abbrev calls : ℕ → Sample
calls ms = record { exec_ms = ms; is_err = false }

abbrev failing : ℕ → Sample
failing ms = record { exec_ms = ms; is_err = true }

abbrev with_one : Sample → Controller fractions
with_one s = record {
  cfg = record {
    enabled = true;
    min_limit = 2;
    max_limit = 6;
    initial_limit = 4;
    fast_threshold_ms = 100;
    slow_threshold_ms = 200;
    sample_window = 2;
    cooldown_ms = 10;
    increase_step = 1;
    decrease_ratio = (3, 4);
    error_threshold = (1, 10);
  };
  samples = s ∷ [];
  limit = 4;
  last_adjust = none;
  reports = [];
}

with_one-IsValid : (s : Sample) → IsValid fractions (with_one s)
with_one-IsValid s = ground arith

-- the controller after a second sample at time 5
abbrev after : Sample → Sample → ℕ → ℕ → Direction → Controller fractions
after s t limit p d = record (with_one s) {
  samples = s ∷ t ∷ [];
  limit = limit;
  last_adjust = some 5;
  reports = current_limit limit ∷ adjusted d ∷ p90_ms p ∷ [];
}

raised :
    record_sample fractions 5 (calls 60) (with_one (calls 50))
    ≡ some (after (calls 50) (calls 60) 5 60 up)
unfolding record_sample push_sample p90 sort_latencies insert_latency count_errors evaluate adjust
raised = refl

lowered :
    record_sample fractions 5 (calls 300) (with_one (calls 250))
    ≡ some (after (calls 250) (calls 300) 3 300 down)
unfolding record_sample push_sample p90 sort_latencies insert_latency count_errors evaluate adjust
lowered = refl

failed :
    record_sample fractions 5 (calls 60) (with_one (failing 50))
    ≡ some (after (failing 50) (calls 60) 3 60 down)
unfolding record_sample push_sample p90 sort_latencies insert_latency count_errors evaluate adjust
failed = refl

-- A step near the largest int makes the limit negative.
wrapped :
    increased fractions
      (record ((with_one (calls 50)).cfg) { increase_step = 9223372036854775807 })
      4
    ≡ 9223372036854775811
unfolding increased
wrapped = refl

record_all_total_example :
    (b : Controller fractions) × (record_all fractions
        ((5, calls 60) ∷ (9, failing 7) ∷ [])
        (with_one (calls 50))
      ≡ some b)
    × IsValid fractions b
    × (b.cfg ≡ (with_one (calls 50)).cfg)
record_all_total_example =
    record_all_total fractions ((5, calls 60) ∷ (9, failing 7) ∷ []) (with_one (calls 50))
      (omega arith) (with_one-IsValid (calls 50))

errors_never_raise_example : 3 ≤ 4
errors_never_raise_example =
    errors_never_raise fractions 5 (calls 60) (with_one (failing 50))
      (after (failing 50) (calls 60) 3 60 down) (with_one-IsValid (failing 50))
      (unfold push_sample count_errors in omega arith) failed

still :
    record_all fractions ((6, calls 70) ∷ []) (after (calls 50) (calls 60) 5 60 up)
    ≡ some (record (after (calls 50) (calls 60) 5 60 up) { samples = calls 60 ∷ calls 70 ∷ [] })
unfolding record_all record_sample push_sample p90
still = refl
