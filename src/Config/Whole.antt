-- ===== src/Config/Whole.antt =====
-- config/loader.go: validate, the defaults and checks of adaptive_concurrency, and Load as a whole.
use blind_llm_eyes.Base.{
  pos, ltb_ℤ, String, str_eq, Bool, true, false, not, ◌&&◌, ◌||◌, if◌then◌else◌, List, [], ◌∷◌,
}
use blind_llm_eyes.Base.Results.{Result, ok, err, ◌>>=◌, ◌>>◌, reject, or_err}
use blind_llm_eyes.Base.Floats.{Floats}
use blind_llm_eyes.Messages.Validate.{trim_space}
use blind_llm_eyes.Config.{
  AdaptiveCfg, Config, LoadError, Outside, read_failed, bad_yaml, min_above_max,
  fast_not_below_slow, upstream_required, vision_required, listen_empty,
}
use blind_llm_eyes.Config.Load.{
  default_int, default_str, load_vision, load_cache, override_env, load_providers,
}

-- The range of an int is left to ℤ; validate sets the limit on a pointer, so it returns the settings.
unfoldable pub validate : {Float : Type 0} → Config Float → Result LoadError (Config Float)
validate c =
    if str_eq (trim_space c.listen) ""
    then err listen_empty
    else ok (record c {
      concurrency_limit = if ltb_ℤ c.concurrency_limit (pos 1) then pos 4 else c.concurrency_limit;
    })

abbrev pub is_empty {ℓ} : {A : Type ℓ} → List A → Bool
is_empty [] = true
is_empty (x ∷ xs) = false

module _ (floats : Floats) where
  open floats use {Float, le, zero_f, one_f, three_quarters, one_tenth}

  abbrev pub default_share : Float → Float → Float
  default_share d x = if le x zero_f || le one_f x then d else x

  unfoldable pub load_adaptive : AdaptiveCfg Float → Result LoadError (AdaptiveCfg Float)
  load_adaptive a = do
    let min = default_int 1 a.min_limit
    let max = default_int 12 a.max_limit
    let fast = default_int 8000 a.fast_threshold_ms
    let slow = default_int 15000 a.slow_threshold_ms
    reject (ltb_ℤ max min) min_above_max
    reject (not (ltb_ℤ fast slow)) fast_not_below_slow
    ok (record a {
      min_limit = min;
      max_limit = max;
      fast_threshold_ms = fast;
      slow_threshold_ms = slow;
      sample_window = default_int 10 a.sample_window;
      cooldown_ms = default_int 2000 a.cooldown_ms;
      increase_step = default_int 1 a.increase_step;
      decrease_ratio = default_share three_quarters a.decrease_ratio;
      error_threshold = default_share one_tenth a.error_threshold;
    })

  module _ (out : Outside Float) where
    open out use {File, read_file, unmarshal_yaml}

    -- What Load does with the settings that the YAML parser gave.
    unfoldable pub load_parsed : Config Float → Result LoadError (Config Float)
    load_parsed c = do
      vision ← load_vision out c.vision
      cache ← load_cache out c.cache
      let c1 = override_env out (record c {
        listen = default_str "127.0.0.1:8790" c.listen;
        vision = vision;
        cache = cache;
        log_level = default_str "info" c.log_level;
        concurrency_limit = default_int 4 c.concurrency_limit;
        max_body_bytes = default_int 20971520 c.max_body_bytes;
      })
      adaptive ← load_adaptive c1.adaptive_concurrency
      providers ← load_providers out 0 [] c1.vision_providers
      reject (str_eq c1.upstream.base_url "") upstream_required
      reject (is_empty providers && str_eq c1.vision.base_url "") vision_required
      validate (record c1 { adaptive_concurrency = adaptive; vision_providers = providers })

    unfoldable pub load : String → Result LoadError (Config Float)
    load path = do
      file ← or_err (read_file path) read_failed
      c ← or_err (unmarshal_yaml file) bad_yaml
      load_parsed c
