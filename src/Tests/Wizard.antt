-- ===== src/Tests/Wizard.antt =====
-- The dialogue of setup at what somebody types.
use blind_llm_eyes.Base.{String, ◌≡◌, refl, false, some, List, [], ◌∷◌, str_eq, none}
use blind_llm_eyes.Cli.Setup.{
  saved, SetupDeps, run_setup_core, atoi_safe, number_from, fill_in, import_step, prompt,
  ask_if_empty, url_if_empty, ask_url, vision_step, keep_foreign, nth, generate_config_yaml,
}
use blind_llm_eyes.Cli.CcSwitch
use blind_llm_eyes.Base.Results.{◌>>=◌, or_err, and_then}
use blind_llm_eyes.Cli.Settings.{lookup}
use blind_llm_eyes.Messages.Validate.{trim_space}
use blind_llm_eyes.Modelutil.{sanitize_model, sanitize, strip_close, split_last_open}
use blind_llm_eyes.Cli.Setup.Foreign.{Saved, run_setup_core-Saved}
use blind_llm_eyes.Tests.Cli.{cc_json, db, no_int}
use blind_llm_eyes.Tests.Handler.{net}

abbrev deps : SetupDeps
deps = record {
  net = net;
  atoi = no_int;
  json = cc_json;
  equal_fold = str_eq;
  cc_switch = some db;
  doctor = λ cfg. 0;
  write_fails = false;
}

-- The first provider for the upstream, a preset for the images, and no connection.
abbrev typed : List String
typed = "y" ∷ ("1" ∷ ("" ∷ ("sk-1" ∷ ("2" ∷ ("sk-2" ∷ ("n" ∷ []))))))

run_setup_core-Saved_example : Saved deps (run_setup_core deps typed)
run_setup_core-Saved_example = run_setup_core-Saved deps typed

-- The number wraps around.
wraps : atoi_safe "18446744073709551617" ≡ 1
unfolding atoi_safe number_from
wraps = refl

saves : run_setup_core deps typed ≡ record {
  code = 0;
  file = saved (
      ("listen", "127.0.0.1:8790")
      ∷ (("upstream.base_url", "https://upstream")
          ∷ (("upstream.api_key", "sk-1")
              ∷ (("log_level", "info")
                  ∷ (("vision_providers.0.name", "qwen")
                      ∷ (("vision_providers.0.type", "qwen")
                          ∷ (("vision_providers.0.api_key", "sk-2") ∷ [])))))));
  connected = none;
}
unfolding run_setup_core fill_in import_step prompt ask_if_empty url_if_empty ask_url vision_step
    keep_foreign nth atoi_safe number_from generate_config_yaml CcSwitch.import_from_cc_switch
    CcSwitch.open_cc_switch_db CcSwitch.import_rows CcSwitch.import_row
    CcSwitch.parse_cc_switch_settings CcSwitch.is_self_referential_url CcSwitch.normalize_host
    CcSwitch.ports_equal trim_space sanitize_model sanitize strip_close split_last_open lookup
    and_then ◌>>=◌ or_err
saves = refl
