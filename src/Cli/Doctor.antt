-- ===== src/Cli/Doctor.antt =====
-- cli/doctor.go: the checks of the doctor and its exit code. The printed report is left out, and the
-- order of the checks matters to what they do to the database and to the panic only.
pub mod Checked
pub mod Healthy
use blind_llm_eyes.Base.{
  ℕ, String, Bool, true, false, not, ◌&&◌, ◌||◌, Option, none, some, List, [], ◌∷◌, str_eq,
  if◌then◌else◌, ℤ,
}
use Prim.Native.String.{◌++◌ as ◌++ₛ◌}
use blind_llm_eyes.Base.Floats.{Floats}
use blind_llm_eyes.Base.Results.{Result, ok, err}
use blind_llm_eyes.Cache.Sqlite.{Row}
use blind_llm_eyes.Config.{ProviderCfg, VisionCfg, Config, LoadError, Outside}
use blind_llm_eyes.Config.Whole.{load}
use blind_llm_eyes.Cli.CcSwitch.{is_self_referential_url}
use blind_llm_eyes.Proxy.Hosts.{Net}
use blind_llm_eyes.Vision.Clients.Build.{
  Provider, BuildError, build_provider, build_single_provider, trim_slashes,
}
use blind_llm_eyes.Vision.Clients.Ping.{ping, ping_upstream}
use blind_llm_eyes.Cli.Probes.{
  DoctorResult, Surroundings, is_err, deep_check_vision, run_doctor_check_db_writable, failing,
  run_doctor_check_vision_model_exists, doctor_pass, doctor_fail,
}

module _ (s : Surroundings) where
  module _ (net : Net) (atoi : String → Option ℤ) where
    -- The error of http.NewRequest is not looked at, and the request is nil then: a panic, `none`.
    unfoldable pub run_doctor_check_upstream_reachable :
        {Float : Type 0} → Config Float → Option DoctorResult
    run_doctor_check_upstream_reachable c =
        let url = trim_slashes c.upstream.base_url ++ₛ "/v1/models" in
        if str_eq c.upstream.base_url ""
        then some doctor_pass
        else if not (str_eq c.listen "")
            && is_self_referential_url net atoi c.upstream.base_url c.listen
        then some doctor_pass
        else if not (s.web_later.valid_url url)
        then none
        else if s.head url c.upstream.api_key
        then some doctor_pass
        else some doctor_fail

    -- Whether the check of the upstream fails.
    unfoldable pub upstream_fails : {Float : Type 0} → Config Float → String → Bool
    upstream_fails c model =
        if str_eq c.upstream.base_url ""
        then false
        else if is_self_referential_url net atoi c.upstream.base_url c.listen
        then true
        else is_err (ping_upstream s.web c.upstream.base_url c.upstream.api_key model)

    abbrev pub built_fails : (deep : Bool) → Result BuildError Provider → Bool
    built_fails deep (err e) = true
    built_fails deep (ok p) =
        is_err (ping s.web 10000000000 p) || (deep && is_err (deep_check_vision s p))

    -- Whether the check of a provider fails, which is at this address and is built so.
    unfoldable pub vision_fails :
        (deep : Bool) (listen base_url : String) → Result BuildError Provider → Bool
    vision_fails deep listen base_url built =
        if is_self_referential_url net atoi base_url listen then true else built_fails deep built

    unfoldable pub providers_fail : (deep : Bool) (listen : String) → List ProviderCfg → Bool
    providers_fail deep listen [] = false
    providers_fail deep listen (p ∷ ps) =
        vision_fails deep listen p.base_url (build_provider p) || providers_fail deep listen ps

    -- The providers, or the single one.
    abbrev pub visions_fail_of :
        (deep : Bool) (listen : String) → VisionCfg → List ProviderCfg → Bool
    visions_fail_of deep listen v (p ∷ ps) = providers_fail deep listen (p ∷ ps)
    visions_fail_of deep listen v [] =
        if str_eq v.base_url ""
        then false
        else vision_fails deep listen v.base_url (build_single_provider v)

    unfoldable pub visions_fail : {Float : Type 0} → (deep : Bool) → Config Float → Bool
    visions_fail deep c = visions_fail_of deep c.listen c.vision c.vision_providers

    abbrev pub exit_code : Bool → Option DoctorResult → Option ℕ
    exit_code failed none = none
    exit_code failed (some reachable) = some (if failed || failing reachable then 1 else 0)

    -- The exit code, or a panic.
    unfoldable pub run_doctor_core :
        {Float : Type 0}
        → Config Float
        → (upstream_model : String) (deep : Bool) → List Row
        → Option ℕ
    run_doctor_core c upstream_model deep rows =
        exit_code
          (upstream_fails c upstream_model
            || (visions_fail deep c
                || (failing (run_doctor_check_db_writable s.db c rows).0
                    || failing (run_doctor_check_vision_model_exists s c))))
          (run_doctor_check_upstream_reachable c)

abbrev pub doctor_of :
    {Float : Type 0}
    → Surroundings
    → Net
    → (String → Option ℤ)
    → String
    → Bool
    → List Row
    → Result LoadError (Config Float)
    → Option ℕ
doctor_of s net atoi model deep rows (err e) = some 1
doctor_of s net atoi model deep rows (ok c) = run_doctor_core s net atoi c model deep rows

-- runDoctor; `none` in place of the flags is flags that do not parse.
unfoldable pub run_doctor :
    (floats : Floats)
    → Surroundings
    → Net
    → (String → Option ℤ)
    → Outside (floats.Float)
    → (flags : Option (String × String × Bool)) → List Row
    → Option ℕ
run_doctor floats s net atoi out none rows = some 2
run_doctor floats s net atoi out (some (path, model, deep)) rows =
    doctor_of s net atoi model deep rows (load floats out path)
