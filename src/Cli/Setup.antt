-- ===== src/Cli/Setup.antt =====
-- cli/setup.go: the dialogue of the subcommand setup over the lines that are typed. What is printed is
-- left out, and a line that is not typed is empty.
pub mod Foreign
use Prim.Native.Char.{code}
use Prim.Native.String.{[] as empty, ◌∷◌ as ◌∷ₛ◌, ◌++◌ as ◌++ₛ◌}
use blind_llm_eyes.Base.{
  ℤ, ℕ, zero, suc, ◌+◌, ◌-◌, ◌*◌, ◌%◌, String, Bool, false, ◌||◌, Option, none, some, List, [], ◌∷◌,
  str_eq, ltb, ◌==◌, if◌then◌else◌,
}
use blind_llm_eyes.Base.Results.{Result, ok, err, and_then}
use blind_llm_eyes.Messages.Validate.{trim_space}
use blind_llm_eyes.Proxy.Hosts.{Net}
use blind_llm_eyes.Cli.CcSwitch.{
  CcSwitchProvider, CcDb, CcError, CcJson, is_self_referential_url, import_from_cc_switch,
}

abbrev pub default_listen : String
default_listen = "127.0.0.1:8790"

-- The variables of the dialogue.
pub record Chosen : Type 0 where
  pub upstream_url : String
  pub upstream_key : String
  pub vision_url : String
  pub vision_key : String
  pub vision_model : String

pub data Vision : Type 0 where
  single : (url key model : String) → Vision
  preset : (kind key : String) → Vision

-- What cfg holds.
pub record SetupConfig : Type 0 where
  pub upstream_url : String
  pub upstream_key : String
  pub vision : Vision

-- setupDeps, and what is outside: the database of cc-switch where there is one, the doctor and whether
-- the file can be written.
pub record SetupDeps : Type 1 where
  pub net : Net
  pub atoi : String → Option ℤ
  pub json : CcJson
  pub equal_fold : String → String → Bool
  pub cc_switch : Option CcDb
  pub doctor : SetupConfig → ℕ
  pub write_fails : Bool

-- What becomes of config.yaml: a write that fails may leave it as it was, cut off, or in part; one that
-- succeeds leaves the document, here as its leaves.
pub data ConfigFile : Type 0 where
  unchanged in_doubt : ConfigFile
  saved : List (String × String) → ConfigFile

-- The exit code, the file, and the address that settings.json gets.
pub record SetupRun : Type 0 where
  pub code : ℕ
  pub file : ConfigFile
  pub connected : Option String

unfoldable pub prompt : List String → String × List String
prompt [] = ("", [])
prompt (line ∷ lines) = (trim_space line, lines)

abbrev pub or_text : String → String → String
or_text a d = if str_eq a "" then d else a

-- The number in an int of 64 bits, and 0 behind a character that is no digit.
unfoldable pub number_from : String → ℕ → ℕ
number_from empty n = n
number_from (c ∷ₛ s) n =
    let rest = number_from s ((n * 10 + (code c - 48)) % 18446744073709551616) in
    if ltb (code c) 48 || ltb 57 (code c) then 0 else rest

unfoldable pub atoi_safe : String → ℕ
atoi_safe s = number_from s 0

-- providers[idx-1]; a negative number is beyond every list here.
unfoldable pub nth : ℕ → List CcSwitchProvider → Option CcSwitchProvider
nth n [] = none
nth zero (p ∷ ps) = none
nth (suc zero) (p ∷ ps) = some p
nth (suc (suc n)) (p ∷ ps) = nth (suc n) ps

abbrev pub pick : String → List CcSwitchProvider → Option CcSwitchProvider
pick answer ps = if str_eq answer "" then none else nth (atoi_safe answer) ps

abbrev pub nothing_chosen : Chosen
nothing_chosen = record {
  upstream_url = "";
  upstream_key = "";
  vision_url = "";
  vision_key = "";
  vision_model = "";
}

abbrev pub take_upstream : Option CcSwitchProvider → Chosen → Chosen
take_upstream none c = c
take_upstream (some p) c = record c { upstream_url = p.base_url; upstream_key = p.api_key }

abbrev pub take_vision : Option CcSwitchProvider → Chosen → Chosen
take_vision none c = c
take_vision (some p) c = record c {
  vision_url = p.base_url;
  vision_key = p.api_key;
  vision_model = p.model;
}

abbrev pub choose_from : List CcSwitchProvider → String → String → Chosen
choose_from ps upstream vision =
    take_vision (pick vision ps) (take_upstream (pick upstream ps) nothing_chosen)

-- The leaves of the map out, each with its path.
abbrev pub vision_leaves : Vision → List (String × String)
vision_leaves (single url key model) =
    ("vision.base_url", url) ∷ (("vision.api_key", key) ∷ (("vision.model", model) ∷ []))
vision_leaves (preset kind key) =
    ("vision_providers.0.name", kind)
    ∷ (("vision_providers.0.type", kind) ∷ (("vision_providers.0.api_key", key) ∷ []))

unfoldable pub generate_config_yaml : SetupConfig → List (String × String)
generate_config_yaml cfg =
    ("listen", default_listen)
    ∷ (("upstream.base_url", cfg.upstream_url)
        ∷ (("upstream.api_key", cfg.upstream_key)
            ∷ (("log_level", "info") ∷ vision_leaves cfg.vision)))

module _ (deps : SetupDeps) where
  open deps use {net, atoi, json, equal_fold, cc_switch, doctor, write_fails}

  abbrev pub is_own : String → Bool
  is_own url = is_self_referential_url net atoi url default_listen

  abbrev pub agrees : Bool → String → Bool
  agrees default_yes answer =
      if str_eq answer "" then default_yes else equal_fold answer "y" || equal_fold answer "yes"

  -- askYesNo
  abbrev pub ask_yes_no : Bool → List String → Bool × List String
  ask_yes_no default_yes lines = (agrees default_yes (prompt lines).0, (prompt lines).1)

  unfoldable pub keep_foreign : List CcSwitchProvider → List CcSwitchProvider
  keep_foreign [] = []
  keep_foreign (p ∷ ps) = let rest = keep_foreign ps in if is_own p.base_url then rest else p ∷ rest

  -- The two questions, if there are providers.
  abbrev pub ask_numbers : List CcSwitchProvider → List String → Chosen × List String
  ask_numbers [] lines = (nothing_chosen, lines)
  ask_numbers (p ∷ ps) lines =
      let (upstream, after) = prompt lines in
      let (vision, rest) = prompt after in
      (choose_from (keep_foreign (p ∷ ps)) upstream vision, rest)

  abbrev pub imported : Result CcError (List CcSwitchProvider) → List String → Chosen × List String
  imported (err e) lines = (nothing_chosen, lines)
  imported (ok ps) lines = ask_numbers ps lines

  abbrev pub import_providers : Option CcDb → List String → Chosen × List String
  import_providers none lines = (nothing_chosen, lines)
  import_providers (some db) lines = imported (import_from_cc_switch net atoi json db "") lines

  -- Step 1
  unfoldable pub import_step : List String → Chosen × List String
  import_step lines =
      let (yes_please, rest) = ask_yes_no false lines in
      if yes_please then import_providers cc_switch rest else (nothing_chosen, rest)

  -- An address, which is asked for a second time if it is the proxy's own.
  abbrev pub second_url : String × List String → Option (String × List String)
  second_url (url, lines) = if str_eq url "" || is_own url then none else some (url, lines)

  abbrev pub first_url : (default : String) → String × List String → Option (String × List String)
  first_url default (url, lines) =
      if is_own (or_text url default)
      then second_url (prompt lines)
      else some (or_text url default, lines)

  unfoldable pub ask_url : (default : String) → List String → Option (String × List String)
  ask_url default lines = first_url default (prompt lines)

  -- What is there, or the answer to a question.
  unfoldable pub ask_if_empty : (given default : String) → List String → String × List String
  ask_if_empty given default lines =
      if str_eq given ""
      then (or_text (prompt lines).0 default, (prompt lines).1)
      else (given, lines)

  unfoldable pub url_if_empty :
      (given default : String) → List String → Option (String × List String)
  url_if_empty given default lines =
      if str_eq given "" then ask_url default lines else some (given, lines)

  -- The key and the model of step 2a without a preset.
  abbrev pub manual : Chosen → String → List String → Vision × List String
  manual c url lines =
      let (key, after) = ask_if_empty c.vision_key "" lines in
      let (model, rest) = ask_if_empty c.vision_model "mimo-v2.5" after in
      (single url key model, rest)

  abbrev pub manual_vision : Chosen → List String → Option (Vision × List String)
  manual_vision c lines =
      and_then (url_if_empty c.vision_url "https://api.xiaomimimo.com/anthropic" lines)
        (λ u. some (manual c u.0 u.1))

  abbrev pub with_preset : String → List String → Option (Vision × List String)
  with_preset kind lines = some (preset kind (prompt lines).0, (prompt lines).1)

  abbrev pub vision_choice : Chosen → String × List String → Option (Vision × List String)
  vision_choice c (choice, lines) =
      if str_eq choice "" || str_eq choice "1"
      then with_preset "glm_free" lines
      else if str_eq choice "2"
      then with_preset "qwen" lines
      else manual_vision c lines

  -- Step 2a
  unfoldable pub vision_step : Chosen → List String → Option (Vision × List String)
  vision_step c lines =
      if str_eq c.vision_url "" then vision_choice c (prompt lines) else manual_vision c lines

  abbrev pub with_vision :
      String → (String × List String) → Vision × List String → SetupConfig × List String
  with_vision url key v = (record { upstream_url = url; upstream_key = key.0; vision = v.0 }, v.1)

  -- Steps 2 and 2a; `none` is a setup that is cancelled.
  unfoldable pub fill_in : Chosen × List String → Option (SetupConfig × List String)
  fill_in (c, lines) =
      and_then (url_if_empty c.upstream_url "https://api.deepseek.com/anthropic" lines) (λ u.
        let key = ask_if_empty c.upstream_key "" u.1 in
        and_then (vision_step c key.1) (λ v. some (with_vision u.0 key v)))

  abbrev pub cancelled : SetupRun
  cancelled = record { code = 1; file = unchanged; connected = none }

  -- Steps 4 to 6. An error of connect is only printed.
  abbrev pub save : SetupConfig → List String → SetupRun
  save cfg lines = if write_fails then record cancelled { file = in_doubt } else record {
    code = 0;
    file = saved (generate_config_yaml cfg);
    connected = if (ask_yes_no false lines).0 then some ("http://" ++ₛ default_listen) else none;
  }

  abbrev pub check_and_save : Option (SetupConfig × List String) → SetupRun
  check_and_save none = cancelled
  check_and_save (some (cfg, lines)) =
      if doctor cfg == 0
      then save cfg lines
      else if (ask_yes_no false lines).0
      then save cfg (ask_yes_no false lines).1
      else cancelled

  -- runSetupCore
  unfoldable pub run_setup_core : List String → SetupRun
  run_setup_core lines = check_and_save (fill_in (import_step lines))
