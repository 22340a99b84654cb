-- ===== src/Config.antt =====
-- config/loader.go: the settings that Load makes of a YAML file and of the environment. What the YAML
-- parser, the environment and the parsers of package time and strconv answer stands in Outside.
pub mod Load
pub mod Providers
pub mod Whole
pub mod Ready
pub mod Reload
pub mod Kept
use blind_llm_eyes.Base.{ℕ, ℤ, String, Bool, Option, List}

pub record UpstreamCfg : Type 0 where
  pub base_url : String
  pub api_key : String

-- Durations are nanoseconds.
pub record VisionCfg : Type 0 where
  pub base_url : String
  pub api_key : String
  pub model : String
  pub timeout_str : String
  pub timeout : ℤ
  pub large_timeout_str : String
  pub large_timeout : ℤ
  pub large_image_threshold : ℤ
  pub description_cap : ℤ
  pub supported_formats : List String
  pub context_rounds : Option ℤ
  pub context_max_chars : ℤ

pub record CacheCfg : Type 0 where
  pub max_entries : ℤ
  pub kind : String
  pub db_path : String
  pub sqlite_max_entries : ℤ
  pub sqlite_ttl_str : String
  pub sqlite_ttl : ℤ

pub record CircuitBreakerCfg : Type 0 where
  pub failure_threshold : ℤ
  pub reset_timeout_str : String
  pub reset_timeout : ℤ

pub record ProviderCfg : Type 0 where
  pub name : String
  pub kind : String
  pub priority : ℤ
  pub base_url : String
  pub api_key : String
  pub model : String
  pub timeout_str : String
  pub timeout : ℤ
  pub large_timeout_str : String
  pub large_timeout : ℤ
  pub large_image_threshold : ℤ
  pub description_cap : ℤ
  pub supported_formats : List String
  pub circuit_breaker : CircuitBreakerCfg

-- The two shares are float64; Float is that type (Base/Floats).
pub record AdaptiveCfg (Float : Type 0) : Type 0 where
  pub enabled : Bool
  pub min_limit : ℤ
  pub max_limit : ℤ
  pub fast_threshold_ms : ℤ
  pub slow_threshold_ms : ℤ
  pub sample_window : ℤ
  pub cooldown_ms : ℤ
  pub increase_step : ℤ
  pub decrease_ratio : Float
  pub error_threshold : Float

pub record Config (Float : Type 0) : Type 0 where
  pub listen : String
  pub upstream : UpstreamCfg
  pub vision : VisionCfg
  pub vision_providers : List ProviderCfg
  pub cache : CacheCfg
  pub fail_open : Bool
  pub log_level : String
  pub concurrency_limit : ℤ
  pub max_body_bytes : ℤ
  pub adaptive_concurrency : AdaptiveCfg Float
  pub vision_capable_models : List String
  pub metrics_auth_token : String
  pub debug_pprof_enabled : Option Bool

pub data ProviderError : Type 0 where
  name_required duplicate_name unknown_kind base_url_required api_key_required model_required
        bad_timeout bad_large_timeout bad_reset_timeout :
      ProviderError

pub data LoadError : Type 0 where
  read_failed bad_yaml bad_vision_timeout bad_vision_large_timeout bad_cache_type bad_sqlite_ttl
        min_above_max fast_not_below_slow upstream_required vision_required listen_empty :
      LoadError
  bad_provider : ℕ → ProviderError → LoadError

-- os.ReadFile, yaml.Unmarshal, os.Getenv, time.ParseDuration, strconv.Atoi, strconv.ParseBool
pub record Outside (Float : Type 0) : Type 1 where
  pub File : Type 0
  pub read_file : String → Option File
  pub unmarshal_yaml : File → Option (Config Float)
  pub getenv : String → String
  pub parse_duration : String → Option ℤ
  pub atoi : String → Option ℤ
  pub parse_bool : String → Option Bool
