-- ===== src/Tests/Config.antt =====
-- The settings at concrete inputs: a file that leaves much out, and reloads.
use blind_llm_eyes.Base.{pos, ◌≡◌, refl, str_eq, if◌then◌else◌, true, none, some, [], ◌∷◌}
use blind_llm_eyes.Base.Results.{ok, ◌>>=◌, ◌>>◌, reject, or_err}
use blind_llm_eyes.Config.{ProviderCfg, Config, Outside}
use blind_llm_eyes.Config.Load.{
  load_vision, load_cache, override_env, fill_provider, load_provider, load_providers,
}
use blind_llm_eyes.Config.Whole.{validate, load_adaptive, load_parsed, load}
use blind_llm_eyes.Config.Reload.{
  ReloadableConfig, new_reloadable_config, guard_fields, reload, run_reloads,
}
use blind_llm_eyes.Config.Ready.{IsReady, load-IsReady}
use blind_llm_eyes.Config.Kept.{SameGuarded, run_reloads-keep}
use blind_llm_eyes.Messages.Validate.{trim_space}
use blind_llm_eyes.Vision.Pool.{contains}
use blind_llm_eyes.Tests.Fractions.{fractions, Fraction}

abbrev provider : ProviderCfg
provider = record {
  name = "glm";
  kind = "glm_free";
  priority = pos 1;
  base_url = "";
  api_key = "key";
  model = "";
  timeout_str = "";
  timeout = pos 0;
  large_timeout_str = "";
  large_timeout = pos 0;
  large_image_threshold = pos 0;
  description_cap = pos 0;
  supported_formats = "image/png" ∷ [];
  circuit_breaker = record {
    failure_threshold = pos 0;
    reset_timeout_str = "";
    reset_timeout = pos 0;
  };
}

-- What the parser gives for a file with an upstream and one provider.
abbrev pub parsed : Config Fraction
parsed = record {
  listen = "";
  upstream = record { base_url = "https://upstream"; api_key = "" };
  vision = record {
    base_url = "";
    api_key = "";
    model = "";
    timeout_str = "";
    timeout = pos 0;
    large_timeout_str = "";
    large_timeout = pos 0;
    large_image_threshold = pos 0;
    description_cap = pos 0;
    supported_formats = "image/png" ∷ [];
    context_rounds = none;
    context_max_chars = pos 0;
  };
  vision_providers = provider ∷ [];
  cache = record {
    max_entries = pos 0;
    kind = "";
    db_path = "";
    sqlite_max_entries = pos 0;
    sqlite_ttl_str = "";
    sqlite_ttl = pos 0;
  };
  fail_open = true;
  log_level = "";
  concurrency_limit = pos 0;
  max_body_bytes = pos 0;
  adaptive_concurrency = record {
    enabled = true;
    min_limit = pos 0;
    max_limit = pos 0;
    fast_threshold_ms = pos 0;
    slow_threshold_ms = pos 0;
    sample_window = pos 0;
    cooldown_ms = pos 0;
    increase_step = pos 0;
    decrease_ratio = (0, 1);
    error_threshold = (0, 1);
  };
  vision_capable_models = [];
  metrics_auth_token = "";
  debug_pprof_enabled = none;
}

abbrev pub ready : Config Fraction
ready = record parsed {
  listen = "127.0.0.1:8790";
  vision = record parsed.vision {
    timeout_str = "30s";
    timeout = pos 7;
    large_timeout_str = "120s";
    large_timeout = pos 7;
    large_image_threshold = pos 1000000;
    description_cap = pos 1000;
    context_rounds = some (pos 3);
    context_max_chars = pos 2000;
  };
  vision_providers =
      record provider {
        base_url = "https://open.bigmodel.cn/api/paas/v4";
        model = "glm-4v-flash";
        timeout_str = "60s";
        timeout = pos 7;
        large_timeout_str = "120s";
        large_timeout = pos 7;
        large_image_threshold = pos 1000000;
        description_cap = pos 1000;
        circuit_breaker = record {
          failure_threshold = pos 5;
          reset_timeout_str = "30s";
          reset_timeout = pos 7;
        };
      }
      ∷ [];
  cache = record parsed.cache {
    max_entries = pos 500;
    kind = "lru";
    sqlite_max_entries = pos 10000;
  };
  log_level = "info";
  concurrency_limit = pos 4;
  max_body_bytes = pos 20971520;
  adaptive_concurrency = record {
    enabled = true;
    min_limit = pos 1;
    max_limit = pos 12;
    fast_threshold_ms = pos 8000;
    slow_threshold_ms = pos 15000;
    sample_window = pos 10;
    cooldown_ms = pos 2000;
    increase_step = pos 1;
    decrease_ratio = (3, 4);
    error_threshold = (1, 10);
  };
  debug_pprof_enabled = some true;
}

-- The file is there and no variable is set.
abbrev pub outside : Config Fraction → Outside Fraction
outside file = record {
  File = Config Fraction;
  read_file = λ path. if str_eq path "config.yaml" then some file else none;
  unmarshal_yaml = λ f. some f;
  getenv = λ name. "";
  parse_duration = λ s. some (pos 7);
  atoi = λ s. none;
  parse_bool = λ s. none;
}

pub loads : load fractions (outside parsed) "config.yaml" ≡ ok ready
unfolding load load_parsed load_vision load_cache override_env load_adaptive load_providers
    load_provider fill_provider validate trim_space contains ◌>>=◌ ◌>>◌ reject or_err
loads = refl

load-IsReady_example : IsReady fractions ready
load-IsReady_example = load-IsReady fractions (outside parsed) "config.yaml" ready loads

abbrev running : ReloadableConfig Fraction
running = new_reloadable_config ready "config.yaml"

-- The file now asks for another address, which needs a restart.
abbrev moved : Outside Fraction
moved = outside (record parsed { listen = "127.0.0.1:9999" })

moved_is_refused : (reload fractions moved running).after ≡ running
unfolding reload guard_fields load load_parsed load_vision load_cache override_env load_adaptive
    load_providers load_provider fill_provider validate trim_space contains ◌>>=◌ ◌>>◌ reject or_err
moved_is_refused = refl

run_reloads-keep_example :
    ((run_reloads fractions (moved ∷ (outside parsed ∷ [])) running).path ≡ "config.yaml")
    × SameGuarded ready (run_reloads fractions (moved ∷ (outside parsed ∷ [])) running).current
    × IsReady fractions (run_reloads fractions (moved ∷ (outside parsed ∷ [])) running).current
run_reloads-keep_example =
    run_reloads-keep fractions (moved ∷ (outside parsed ∷ [])) running load-IsReady_example
