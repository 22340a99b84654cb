-- ===== src/Server/Start.antt =====
-- main.go: runServer up to the handler, from the settings to the parts that it serves with.
pub mod Sound
use blind_llm_eyes.Base.{
  ℕ, ℤ, pos, negsuc, String, str_eq, if◌then◌else◌, Option, none, some, List, [], ◌∷◌,
}
use blind_llm_eyes.Base.Results.{Result, ok, err, ◌>>=◌}
use blind_llm_eyes.Base.Floats.{Floats}
use blind_llm_eyes.Cache.Lru.{Lru, new_lru}
use blind_llm_eyes.Cache.Sqlite.{Sqlite, Row}
use blind_llm_eyes.Cache.Sqlite.Open.{Opening, OpenError, open_sqlite, milliseconds}
use blind_llm_eyes.Cache.TwoTier.{TwoTier, new_two_tier}
use blind_llm_eyes.Config.{Config, CacheCfg, LoadError, Outside}
use blind_llm_eyes.Config.Whole.{load}
use blind_llm_eyes.Proxy.Adaptive.{Settings, Controller, new_controller}
use blind_llm_eyes.Proxy.Handler.{Deps}
use blind_llm_eyes.Proxy.Hosts.{Net}
use blind_llm_eyes.Proxy.NewHandler.{Panic, new_handler}
use blind_llm_eyes.Vision.Pool.{Member}
use blind_llm_eyes.Vision.Clients.Build.{
  Provider, mimo, openai, BuildError, Network, build_pool, build_single_provider, trim_slashes,
}

-- HandlerDeps.VisionProvider: the pool, or a single client.
pub data AnyProvider : Type 0 where
  pooled : List Member → AnyProvider
  single : Provider → AnyProvider

pub data CacheBackend : Type 0 where
  lru : Lru → CacheBackend
  two_tier : TwoTier → CacheBackend

pub data StartError : Type 0 where
  bad_config : LoadError → StartError
  bad_provider : BuildError → StartError
  panic : Panic → StartError

-- The handler with its collaborators.
pub record Running (floats : Floats) : Type 0 where
  pub deps : Deps
  pub provider : AnyProvider
  pub cache : CacheBackend
  pub controller : Controller floats

abbrev lift_error {ℓ} : {E F A : Type ℓ} → (E → F) → Result E A → Result F A
lift_error f (ok a) = ok a
lift_error f (err e) = err (f e)

-- GetBaseURL, which the clients have and the pool has not
abbrev pub base_url_of : AnyProvider → Option String
base_url_of (pooled ms) = none
base_url_of (single (mimo c)) = some c.base_url
base_url_of (single (openai c)) = some c.base_url

-- ptrDeref(p, 3)
abbrev pub rounds_or_three : Option ℤ → ℤ
rounds_or_three none = pos 3
rounds_or_three (some n) = n

abbrev pub capacity : ℤ → ℕ
capacity (pos n) = n
capacity (negsuc n) = 0

-- A database that cannot be opened leaves the LRU alone.
abbrev pub backend : ℕ → Result OpenError Sqlite → CacheBackend
backend entries (ok cold) = two_tier (new_two_tier entries cold)
backend entries (err e) = lru (new_lru entries)

-- `rows` is what the file at the path holds.
unfoldable pub build_cache : Opening → CacheCfg → List Row → CacheBackend
build_cache opening c rows =
    if str_eq c.kind "twotier"
    then backend (capacity c.max_entries) (
        open_sqlite opening c.db_path (capacity c.sqlite_max_entries) (milliseconds c.sqlite_ttl)
          rows)
    else lru (new_lru (capacity c.max_entries))

module _ (floats : Floats) where
  open floats use {Float}

  unfoldable pub adaptive_settings : Config Float → Settings floats
  adaptive_settings c = record {
    enabled = c.adaptive_concurrency.enabled;
    min_limit = c.adaptive_concurrency.min_limit;
    max_limit = c.adaptive_concurrency.max_limit;
    initial_limit = c.concurrency_limit;
    fast_threshold_ms = c.adaptive_concurrency.fast_threshold_ms;
    slow_threshold_ms = c.adaptive_concurrency.slow_threshold_ms;
    sample_window = c.adaptive_concurrency.sample_window;
    cooldown_ms = c.adaptive_concurrency.cooldown_ms;
    increase_step = c.adaptive_concurrency.increase_step;
    decrease_ratio = c.adaptive_concurrency.decrease_ratio;
    error_threshold = c.adaptive_concurrency.error_threshold;
  }

  unfoldable pub choose_provider : Network → Config Float → Result BuildError AnyProvider
  choose_provider network c = elim c.vision_providers [
    | [] ↦ (build_single_provider c.vision >>= λ p. ok (single p))
    | p ∷ ps ↦ (build_pool network c.vision_providers >>= λ ms. ok (pooled ms))
  ]

  unfoldable pub build_deps : Config Float → AnyProvider → Deps
  build_deps c provider = record {
    upstream_base_url = trim_slashes c.upstream.base_url;
    upstream_api_key = c.upstream.api_key;
    fail_open = c.fail_open;
    vision_base_url = base_url_of provider;
    vision_capable_models = c.vision_capable_models;
    listen_addr = c.listen;
    context_rounds = rounds_or_three c.vision.context_rounds;
    context_max_chars = c.vision.context_max_chars;
  }

  -- `rows` is what the file of the database holds.
  unfoldable pub run_server :
      Net
      → Network
      → Outside Float
      → Opening
      → List Row
      → String
      → Result StartError (Running floats)
  run_server net network out opening rows path = do
    c ← lift_error bad_config (load floats out path)
    provider ← lift_error bad_provider (choose_provider network c)
    deps ← lift_error panic (new_handler net (build_deps c provider))
    ok (record {
      deps = deps;
      provider = provider;
      cache = build_cache opening c.cache rows;
      controller = new_controller floats (adaptive_settings c);
    })
