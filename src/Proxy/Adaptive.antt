-- ===== src/Proxy/Adaptive.antt =====
-- proxy/adaptive.go: the controller that raises and lowers the limit on concurrent vision calls
-- (AIMD). RecordSample takes the mutex for its whole body. Latencies are differences of monotonic
-- times, and so are not negative.
pub mod Quantile
pub mod Steps
pub mod Invariant
pub mod Control
use blind_llm_eyes.Base.{
  ◌^◌, ℕ, ◌+◌, ◌-◌, ◌*◌, ℤ, pos, negsuc, positive_or, ltb, ◌==◌, if◌then◌else◌, Bool, ◌&&◌, ◌||◌,
  not, Option, none, some, List, [], ◌∷◌, ◌++◌, length, drop, map, get_elem?, since, ◌%◌,
}
use blind_llm_eyes.Base.Floats.{Floats}

pub record Sample : Type 0 where
  pub exec_ms : ℕ
  pub is_err : Bool

pub data Direction : Type 0 where
  up down unmoved : Direction

-- What the controller reports: AdaptiveConcurrencyCurrent, AdaptiveConcurrencyAdjustments and
-- AdaptiveVisionP90Seconds (here in milliseconds).
pub data Report : Type 0 where
  current_limit p90_ms : ℕ → Report
  adjusted : Direction → Report

unfoldable pub insert_latency : ℕ → List ℕ → List ℕ
insert_latency x [] = x ∷ []
insert_latency x (y ∷ ys) = if ltb y x then y ∷ insert_latency x ys else x ∷ y ∷ ys

-- sort.Slice over numbers
unfoldable pub sort_latencies : List ℕ → List ℕ
sort_latencies [] = []
sort_latencies (x ∷ xs) = insert_latency x (sort_latencies xs)

unfoldable pub count_errors : List Sample → ℕ
count_errors [] = 0
count_errors (s ∷ ss) = (if s.is_err then 1 else 0) + count_errors ss

-- if the bound is not positive it is 0: a cooldown of 0 or less never holds a sample back
abbrev pub non_negative : ℤ → ℕ
non_negative (pos n) = n
non_negative (negsuc n) = 0

-- if v < lo { v = lo }; if v > hi { v = hi }
abbrev pub clamp : ℕ → ℕ → ℕ → ℕ
clamp lo hi v = let w = if ltb v lo then lo else v in if ltb hi w then hi else w

-- the samples after append, without the oldest if they are too many
unfoldable pub push_sample : ℕ → List Sample → Sample → List Sample
push_sample window samples s =
    let all = samples ++ (s ∷ []) in if ltb window (length all) then drop 1 all else all

-- A limit is an int of 64 bits: a number from this one on stands for a negative one.
abbrev pub sign_bit : ℕ
sign_bit = 2 ^ 63

-- time.Duration(ms) * time.Millisecond
abbrev pub millis : ℕ → ℕ
millis ms = ms * 1000000

module _ (floats : Floats) where
  open floats use {
    Float, le, lt, eq, zero_f, one_f, three_quarters, one_tenth, nine_tenths, of_int, mul, div,
    floor, ceil,
  }

  -- AdaptiveConcurrencyCfg as a caller gives it.
  pub record Settings : Type 0 where
    pub enabled : Bool
    pub min_limit : ℤ
    pub max_limit : ℤ
    pub initial_limit : ℤ
    pub fast_threshold_ms : ℤ
    pub slow_threshold_ms : ℤ
    pub sample_window : ℤ
    pub cooldown_ms : ℤ
    pub increase_step : ℤ
    pub decrease_ratio : Float
    pub error_threshold : Float

  -- The configuration that NewAdaptiveConcurrency keeps.
  pub record Cfg : Type 0 where
    pub enabled : Bool
    pub min_limit : ℕ
    pub max_limit : ℕ
    pub initial_limit : ℕ
    pub fast_threshold_ms : ℕ
    pub slow_threshold_ms : ℕ
    pub sample_window : ℕ
    pub cooldown_ms : ℕ
    pub increase_step : ℕ
    pub decrease_ratio : Float
    pub error_threshold : Float

  pub record Controller : Type 0 where
    pub cfg : Cfg
    pub samples : List Sample
    pub limit : ℕ
    pub last_adjust : Option ℕ
    pub reports : List Report

  -- a fraction outside the open interval is replaced
  abbrev pub fraction_or : Float → Float → Float
  fraction_or d x = if le x zero_f || le one_f x then d else x

  -- MinLimit and MaxLimit after the swap to 1 and 12 of a pair in the wrong order
  abbrev pub limits : Settings → ℕ × ℕ
  limits s =
      if ltb (positive_or 12 s.max_limit) (positive_or 1 s.min_limit)
      then (1, 12)
      else (positive_or 1 s.min_limit, positive_or 12 s.max_limit)

  unfoldable pub normalize : Settings → Cfg
  normalize s = record {
    enabled = s.enabled;
    min_limit = (limits s).0;
    max_limit = (limits s).1;
    initial_limit = clamp (limits s).0 (limits s).1 (positive_or 6 s.initial_limit);
    fast_threshold_ms = positive_or 8000 s.fast_threshold_ms;
    slow_threshold_ms = positive_or 15000 s.slow_threshold_ms;
    sample_window = positive_or 10 s.sample_window;
    cooldown_ms = non_negative s.cooldown_ms;
    increase_step = positive_or 1 s.increase_step;
    decrease_ratio = fraction_or three_quarters s.decrease_ratio;
    error_threshold = fraction_or one_tenth s.error_threshold;
  }

  unfoldable pub new_controller : Settings → Controller
  unfolding normalize
  new_controller s = record {
    cfg = normalize s;
    samples = [];
    limit = (normalize s).initial_limit;
    last_adjust = none;
    reports = current_limit (normalize s).initial_limit ∷ [];
  }

  unfoldable pub p90_index : ℕ → ℕ
  p90_index n = ceil (mul nine_tenths (of_int n)) - 1

  -- `none` is the panic of an index out of range.
  unfoldable pub p90 : List Sample → Option ℕ
  unfolding p90_index
  p90 samples =
      get_elem? (sort_latencies (map (λ s. s.exec_ms) samples)) (p90_index (length samples))

  abbrev pub error_rate : List Sample → Float
  error_rate samples = div (of_int (count_errors samples)) (of_int (length samples))

  abbrev pub too_slow : Cfg → ℕ → Bool
  too_slow cfg p = ltb cfg.slow_threshold_ms p

  abbrev pub too_many_errors : Cfg → List Sample → Bool
  too_many_errors cfg samples = lt cfg.error_threshold (error_rate samples)

  abbrev pub too_fast : Cfg → ℕ → List Sample → Bool
  too_fast cfg p samples = ltb p cfg.fast_threshold_ms && eq (error_rate samples) zero_f

  -- multiplicative decrease, down to the floor; a negative limit scaled is below it
  unfoldable pub decreased : Cfg → ℕ → ℕ
  decreased cfg limit =
      let new = floor (mul (of_int limit) cfg.decrease_ratio) in
      if not (ltb limit sign_bit) || ltb new cfg.min_limit then cfg.min_limit else new

  -- additive increase, up to the ceiling; the sum of two ints wraps around
  unfoldable pub increased : Cfg → ℕ → ℕ
  increased cfg limit =
      let new = (limit + cfg.increase_step) % 2 ^ 64 in
      if ltb new sign_bit && ltb cfg.max_limit new then cfg.max_limit else new

  -- the `switch` over the window: the new limit and the direction
  unfoldable pub evaluate : Cfg → List Sample → ℕ → ℕ → ℕ × Direction
  unfolding decreased increased
  evaluate cfg samples p limit =
      if too_slow cfg p || too_many_errors cfg samples
      then (decreased cfg limit, if decreased cfg limit == limit then unmoved else down)
      else if too_fast cfg p samples
      then (increased cfg limit, if increased cfg limit == limit then unmoved else up)
      else (limit, unmoved)

  -- the end of RecordSample, over a full window
  unfoldable pub adjust : ℕ → Controller → ℕ → Controller
  unfolding evaluate
  adjust now a p =
      let e = evaluate a.cfg a.samples p a.limit in
      record a {
        limit = e.0;
        last_adjust = some now;
        reports = a.reports ++ (current_limit e.0 ∷ adjusted e.1 ∷ p90_ms p ∷ []);
      }

  -- the controller with one more sample
  abbrev pub pushed : Sample → Controller → Controller
  pushed s a = record a { samples = push_sample a.cfg.sample_window a.samples s }

  unfoldable pub record_sample : ℕ → Sample → Controller → Option Controller
  record_sample now s a =
      if not a.cfg.enabled
      then some a
      else let b = record a { samples = push_sample a.cfg.sample_window a.samples s } in
        if ltb (length b.samples) a.cfg.sample_window
        then some b
        else if ltb (since now a.last_adjust) (millis a.cfg.cooldown_ms)
        then some b
        else elim (p90 b.samples) [ none ↦ none | some p ↦ some (adjust now b p) ]

  -- A history of samples, each with its time.
  unfoldable pub record_all : List (ℕ × Sample) → Controller → Option Controller
  record_all [] a = some a
  record_all ((now, s) ∷ ss) a = elim (record_sample now s a) [
    | none ↦ none
    | some b ↦ record_all ss b
  ]
