-- ===== src/Config/Reload.antt =====
-- config/loader.go: ReloadableConfig, the settings in force and the path they are read from. Reload
-- holds a mutex for its whole body, so that reloads run one after the other.
use blind_llm_eyes.Base.{String, str_eq, Bool, not, List, [], ◌∷◌}
use blind_llm_eyes.Base.Results.{Result, ok, err, ◌>>=◌, ◌>>◌, reject}
use blind_llm_eyes.Base.Floats.{Floats}
use blind_llm_eyes.Config.{Config, LoadError, Outside}
use blind_llm_eyes.Config.Whole.{load, validate}

pub data Guarded : Type 0 where
  listen_field upstream_base_url upstream_api_key metrics_token cache_db_path : Guarded

pub data ReloadError : Type 0 where
  not_loaded : LoadError → ReloadError
  not_reloadable : Guarded → ReloadError

pub record ReloadableConfig (Float : Type 0) : Type 0 where
  pub current : Config Float
  pub path : String

abbrev pub new_reloadable_config : {Float : Type 0} → Config Float → String → ReloadableConfig Float
new_reloadable_config cfg path = record { current = cfg; path = path }

-- The answer (prev, next, err) with the settings that are in force behind the call.
pub record Reloaded (Float : Type 0) : Type 0 where
  pub after : ReloadableConfig Float
  pub prev : Config Float
  pub next : Config Float
  pub outcome : Result ReloadError (Unit {0})

abbrev pub changed : String → String → Bool
changed a b = not (str_eq a b)

unfoldable pub guard_fields :
    {Float : Type 0} → Config Float → Config Float → Result ReloadError (Config Float)
guard_fields prev next = do
  reject (changed prev.listen next.listen) (not_reloadable listen_field)
  reject (changed prev.upstream.base_url next.upstream.base_url) (not_reloadable upstream_base_url)
  reject (changed prev.upstream.api_key next.upstream.api_key) (not_reloadable upstream_api_key)
  reject (changed prev.metrics_auth_token next.metrics_auth_token) (not_reloadable metrics_token)
  reject (changed prev.cache.db_path next.cache.db_path) (not_reloadable cache_db_path)
  ok next

abbrev pub loaded :
    {Float : Type 0} → Result LoadError (Config Float) → Result ReloadError (Config Float)
loaded (ok c) = ok c
loaded (err e) = err (not_loaded e)

abbrev pub swap :
    {Float : Type 0} → ReloadableConfig Float → Result ReloadError (Config Float) → Reloaded Float
swap r (ok next) = record {
  after = record r { current = next };
  prev = r.current;
  next = next;
  outcome = ok tt;
}
swap r (err e) = record { after = r; prev = r.current; next = r.current; outcome = err e }

module _ (floats : Floats) where
  -- Each call finds the file and the environment as they are at its time.
  unfoldable pub reload :
      Outside (floats.Float) → ReloadableConfig (floats.Float) → Reloaded (floats.Float)
  reload out r = swap r (loaded (load floats out r.path) >>= guard_fields r.current)

  unfoldable pub run_reloads :
      List (Outside (floats.Float))
      → ReloadableConfig (floats.Float)
      → ReloadableConfig (floats.Float)
  run_reloads [] r = r
  run_reloads (out ∷ outs) r = run_reloads outs (reload out r).after

-- TestReloadFromConfig
unfoldable pub reload_from_config :
    {Float : Type 0} → Config Float → ReloadableConfig Float → Reloaded Float
reload_from_config next r = swap r (loaded (validate next))
