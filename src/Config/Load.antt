-- ===== src/Config/Load.antt =====
-- config/loader.go: Load, in its stages, and validate.
use blind_llm_eyes.Base.{
  ℕ, zero, suc, ℤ, pos, negsuc, String, str_eq, Bool, true, not, ◌&&◌, ◌||◌, if◌then◌else◌, Option,
  none, some, List, [], ◌∷◌,
}
use blind_llm_eyes.Base.Results.{Result, ok, err, ◌>>=◌, ◌>>◌, reject, or_err}
use blind_llm_eyes.Vision.Pool.{contains}
use blind_llm_eyes.Config.{
  VisionCfg, CacheCfg, ProviderCfg, Config, ProviderError, LoadError, Outside, name_required,
  duplicate_name, unknown_kind, base_url_required, api_key_required, model_required, bad_timeout,
  bad_large_timeout, bad_reset_timeout, bad_vision_timeout, bad_vision_large_timeout,
  bad_cache_type, bad_sqlite_ttl, bad_provider,
}

-- if x <= 0 { x = d }
abbrev pub default_int : ℕ → ℤ → ℤ
default_int d (pos zero) = pos d
default_int d (pos (suc n)) = pos (suc n)
default_int d (negsuc n) = pos d

-- if s == "" { s = d }
abbrev pub default_str : String → String → String
default_str d s = if str_eq s "" then d else s

abbrev image_formats : List String
image_formats = "image/png" ∷ ("image/jpeg" ∷ ("image/webp" ∷ ("image/gif" ∷ [])))

abbrev default_formats : List String → List String
default_formats [] = image_formats
default_formats (f ∷ fs) = f ∷ fs

abbrev default_option {ℓ} : {A : Type ℓ} → A → Option A → Option A
default_option d none = some d
default_option d (some a) = some a

-- The address and the model of the two services that have defaults.
abbrev pub fill_defaults : ProviderCfg → ProviderCfg
fill_defaults p =
    if str_eq p.kind "glm_free"
    then record p {
      base_url = default_str "https://open.bigmodel.cn/api/paas/v4" p.base_url;
      model = default_str "glm-4v-flash" p.model;
    }
    else if str_eq p.kind "qwen"
    then record p {
      base_url = default_str "https://dashscope.aliyuncs.com/compatible-mode/v1" p.base_url;
      model = default_str "qwen-vl-plus" p.model;
    }
    else p

unfoldable pub fill_provider : ProviderCfg → ProviderCfg
fill_provider p = fill_defaults (record p { kind = default_str "mimo" p.kind })

abbrev pub known_kind : String → Bool
known_kind k =
    str_eq k "mimo" || str_eq k "openai_compatible" || str_eq k "glm_free" || str_eq k "qwen"

abbrev pub at_index : ℕ → Result ProviderError ProviderCfg → Result LoadError ProviderCfg
at_index i (ok p) = ok p
at_index i (err e) = err (bad_provider i e)

module _ {Float : Type 0} (out : Outside Float) where
  open out use {getenv, parse_duration, atoi, parse_bool}

  unfoldable pub load_vision : VisionCfg → Result LoadError VisionCfg
  load_vision v = do
    d ← or_err (parse_duration (default_str "30s" v.timeout_str)) bad_vision_timeout
    ld ← or_err (parse_duration (default_str "120s" v.large_timeout_str)) bad_vision_large_timeout
    ok (record v {
      timeout_str = default_str "30s" v.timeout_str;
      timeout = d;
      large_timeout_str = default_str "120s" v.large_timeout_str;
      large_timeout = ld;
      large_image_threshold = default_int 1000000 v.large_image_threshold;
      supported_formats = default_formats v.supported_formats;
      description_cap = default_int 1000 v.description_cap;
      context_rounds = default_option (pos 3) v.context_rounds;
      context_max_chars = default_int 2000 v.context_max_chars;
    })

  -- An empty text leaves the TTL as it is, which is 0 after the parser.
  abbrev load_ttl : CacheCfg → Result LoadError ℤ
  load_ttl c =
      if str_eq c.sqlite_ttl_str ""
      then ok c.sqlite_ttl
      else or_err (parse_duration c.sqlite_ttl_str) bad_sqlite_ttl

  unfoldable pub load_cache : CacheCfg → Result LoadError CacheCfg
  load_cache c = do
    let kind = default_str "lru" c.kind
    reject (not (str_eq kind "lru") && not (str_eq kind "twotier")) bad_cache_type
    ttl ← load_ttl c
    ok (record c {
      max_entries = default_int 500 c.max_entries;
      kind = kind;
      sqlite_max_entries = default_int 10000 c.sqlite_max_entries;
      sqlite_ttl = ttl;
    })

  -- if v := os.Getenv(name); v != "" { … }
  abbrev env_str : String → String → String
  env_str name old = if str_eq (getenv name) "" then old else getenv name

  abbrev or_old {ℓ} : {A : Type ℓ} → A → Option A → A
  or_old old none = old
  or_old old (some a) = a

  abbrev env_with {ℓ} : {A : Type ℓ} → (String → Option A) → String → A → A
  env_with parse name old =
      if str_eq (getenv name) "" then old else or_old old (parse (getenv name))

  abbrev some_int : String → Option (Option ℤ)
  some_int s = elim (atoi s) [ none ↦ none | some n ↦ some (some n) ]

  abbrev some_bool : String → Option (Option Bool)
  some_bool s = elim (parse_bool s) [ none ↦ none | some b ↦ some (some b) ]

  unfoldable pub override_env : Config Float → Config Float
  override_env c = record c {
    listen = env_str "BLIND_LISTEN" c.listen;
    upstream = record c.upstream {
      base_url = env_str "BLIND_UPSTREAM_BASE_URL" c.upstream.base_url;
      api_key = env_str "BLIND_UPSTREAM_API_KEY" c.upstream.api_key;
    };
    vision = record c.vision {
      api_key = env_str "BLIND_VISION_API_KEY" c.vision.api_key;
      context_rounds = env_with some_int "BLIND_VISION_CONTEXT_ROUNDS" c.vision.context_rounds;
      context_max_chars = env_with atoi "BLIND_VISION_CONTEXT_MAX_CHARS" c.vision.context_max_chars;
    };
    metrics_auth_token = env_str "BLIND_METRICS_AUTH_TOKEN" c.metrics_auth_token;
    debug_pprof_enabled =
        env_with some_bool "BLIND_DEBUG_PPROF_ENABLED" (default_option true c.debug_pprof_enabled);
  }

  -- The body of the loop over vision_providers, behind the providers of these names.
  unfoldable pub load_provider : List String → ProviderCfg → Result ProviderError ProviderCfg
  load_provider names given = do
    reject (str_eq given.name "") name_required
    reject (contains given.name names) duplicate_name
    let p = fill_provider given
    reject (not (known_kind p.kind)) unknown_kind
    reject (str_eq p.base_url "") base_url_required
    reject (str_eq p.api_key "") api_key_required
    reject (str_eq p.model "") model_required
    d ← or_err (parse_duration (default_str "60s" p.timeout_str)) bad_timeout
    ld ← or_err (parse_duration (default_str "120s" p.large_timeout_str)) bad_large_timeout
    rd ←
        or_err (parse_duration (default_str "30s" p.circuit_breaker.reset_timeout_str))
          bad_reset_timeout
    ok (record p {
      timeout_str = default_str "60s" p.timeout_str;
      timeout = d;
      large_timeout_str = default_str "120s" p.large_timeout_str;
      large_timeout = ld;
      large_image_threshold = default_int 1000000 p.large_image_threshold;
      description_cap = default_int 1000 p.description_cap;
      supported_formats = default_formats p.supported_formats;
      circuit_breaker = record {
        failure_threshold = default_int 5 p.circuit_breaker.failure_threshold;
        reset_timeout_str = default_str "30s" p.circuit_breaker.reset_timeout_str;
        reset_timeout = rd;
      };
    })

  -- for i := range c.VisionProviders
  unfoldable pub load_providers :
      ℕ → List String → List ProviderCfg → Result LoadError (List ProviderCfg)
  load_providers i names [] = ok []
  load_providers i names (p ∷ ps) =
      let rest = load_providers (suc i) (p.name ∷ names) ps in
      (at_index i (load_provider names p) >>= λ q. (rest >>= λ qs. ok (q ∷ qs)))
