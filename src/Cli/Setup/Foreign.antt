-- ===== src/Cli/Setup/Foreign.antt =====
-- cli/setup.go: the addresses that the dialogue writes.
use blind_llm_eyes.Base.{
  true, split_if, ℕ, zero, suc, String, ◌≡◌, refl, ◌≢◌, false, ◌||◌, Option, none, some, List, [],
  ◌∷◌, arith, eq_iff, str_eq, All, branches, ◌⊎◌, inl, inr, ◌==◌,
}
use blind_llm_eyes.Base.Results.{Result, ok, err, and_then}
use blind_llm_eyes.Config.Providers.{not_empty}
use blind_llm_eyes.Cli.CcSwitch.{
  CcSwitchProvider, CcDb, CcError, is_self_referential_url, import_from_cc_switch,
}
use blind_llm_eyes.Cli.Setup.{
  in_doubt, unchanged, saved, preset, save, generate_config_yaml, single, ask_if_empty,
  check_and_save, fill_in, run_setup_core, SetupConfig, vision_step, vision_choice, manual_vision,
  cancelled, SetupRun, Vision, Chosen, SetupDeps, prompt, or_text, nth, pick, nothing_chosen,
  take_upstream, take_vision, choose_from, is_own, keep_foreign, imported, import_providers,
  import_step, second_url, first_url, ask_url, url_if_empty, ask_yes_no,
}

-- What holds of a value, if there is one.
abbrev Each {ℓ} : {A : Type ℓ} → (A → Type 0) → Option A → Type 0
Each P none = Unit
Each P (some a) = P a

Each-and_then :
    {A B : Type 0} (P : A → Type 0) (Q : B → Type 0) (o : Option A) (f : A → Option B)
    → Each P o
    → ((a : A) → P a → Each Q (f a))
    → Each Q (and_then o f)
unfolding and_then
Each-and_then P Q none f p step = tt
Each-and_then P Q (some a) f p step = step a p

Each-nth :
    (P : CcSwitchProvider → Type 0) (n : ℕ) (ps : List CcSwitchProvider)
    → All P ps
    → Each P (nth n ps)
unfolding nth
Each-nth P n [] a = tt
Each-nth P zero (p ∷ ps) a = tt
Each-nth P (suc zero) (p ∷ ps) a = a.0
Each-nth P (suc (suc n)) (p ∷ ps) a = Each-nth P (suc n) ps a.1

module _ (deps : SetupDeps) where
  abbrev pub IsForeign : String → Type 0
  IsForeign url = is_own deps url ≡ false

  -- It is no empty text, and not the proxy's own address.
  abbrev pub IsTarget : String → Type 0
  IsTarget url = (url ≢ "") × IsForeign url

  abbrev HasForeign : Chosen → Type 0
  HasForeign c = IsForeign c.upstream_url × IsForeign c.vision_url

  abbrev IsElsewhere : CcSwitchProvider → Type 0
  IsElsewhere p = IsForeign p.base_url

  empty-IsForeign : IsForeign ""
  unfolding is_self_referential_url
  empty-IsForeign = refl

  keep_foreign-IsElsewhere : (ps : List CcSwitchProvider) → All IsElsewhere (keep_foreign deps ps)
  unfolding keep_foreign
  keep_foreign-IsElsewhere [] = tt
  keep_foreign-IsElsewhere (p ∷ ps) =
      split_if (All IsElsewhere) (is_own deps p.base_url) _ _ (λ e. keep_foreign-IsElsewhere ps)
        (λ e. (e, keep_foreign-IsElsewhere ps))

  pick-IsElsewhere :
      (answer : String) (ps : List CcSwitchProvider)
      → All IsElsewhere ps
      → Each IsElsewhere (pick answer ps)
  pick-IsElsewhere answer ps a =
      branches (Each IsElsewhere) (str_eq answer "") none _ tt (Each-nth IsElsewhere _ ps a)

  take_upstream-HasForeign :
      (o : Option CcSwitchProvider) (c : Chosen)
      → Each IsElsewhere o
      → HasForeign c
      → HasForeign (take_upstream o c)
  take_upstream-HasForeign none c e h = h
  take_upstream-HasForeign (some p) c e h = (e, h.1)

  take_vision-HasForeign :
      (o : Option CcSwitchProvider) (c : Chosen)
      → Each IsElsewhere o
      → HasForeign c
      → HasForeign (take_vision o c)
  take_vision-HasForeign none c e h = h
  take_vision-HasForeign (some p) c e h = (h.0, e)

  nothing-HasForeign : HasForeign nothing_chosen
  nothing-HasForeign = (empty-IsForeign, empty-IsForeign)

  choose_from-HasForeign :
      (ps : List CcSwitchProvider) (upstream vision : String)
      → All IsElsewhere ps
      → HasForeign (choose_from ps upstream vision)
  choose_from-HasForeign ps upstream vision a =
      take_vision-HasForeign (pick vision ps) _ (pick-IsElsewhere vision ps a) (
        take_upstream-HasForeign (pick upstream ps) nothing_chosen (pick-IsElsewhere upstream ps a)
          nothing-HasForeign)

  imported-HasForeign :
      (r : Result CcError (List CcSwitchProvider)) (lines : List String)
      → HasForeign (imported deps r lines).0
  imported-HasForeign (err e) lines = nothing-HasForeign
  imported-HasForeign (ok []) lines = nothing-HasForeign
  imported-HasForeign (ok (p ∷ ps)) lines =
      choose_from-HasForeign (keep_foreign deps (p ∷ ps)) (prompt lines).0
        (prompt (prompt lines).1).0 (keep_foreign-IsElsewhere (p ∷ ps))

  import_providers-HasForeign :
      (db : Option CcDb) (lines : List String) → HasForeign (import_providers deps db lines).0
  import_providers-HasForeign none lines = nothing-HasForeign
  import_providers-HasForeign (some db) lines =
      imported-HasForeign (import_from_cc_switch deps.net deps.atoi deps.json db "") lines

  import_step-HasForeign : (lines : List String) → HasForeign (import_step deps lines).0
  unfolding import_step
  import_step-HasForeign lines =
      branches (λ (r : Chosen × List String). HasForeign r.0) (ask_yes_no deps false lines).0 _ _
        (import_providers-HasForeign deps.cc_switch (ask_yes_no deps false lines).1)
        nothing-HasForeign

  abbrev AtTarget : String × List String → Type 0
  AtTarget u = IsTarget u.0

  second_url-IsTarget : (u : String × List String) → Each AtTarget (second_url deps u)
  second_url-IsTarget (url, lines) =
      split_if (Each AtTarget) (str_eq url "" || is_own deps url) none _ (λ e. tt)
        (λ e. ground (arith, e, eq_iff url ""))

  first_url-IsTarget :
      (default : String) (u : String × List String)
      → default ≢ ""
      → Each AtTarget (first_url deps default u)
  first_url-IsTarget default (url, lines) n =
      split_if (Each AtTarget) (is_own deps (or_text url default)) _ _
        (λ e. second_url-IsTarget (prompt lines))
        (λ e. (
          split_if (λ t. t ≢ "") (str_eq url "") default url (λ q. n)
              (λ q. ground (arith, q, eq_iff url "")),
          e,
        ))

  url_if_empty-IsTarget :
      (given default : String) (lines : List String)
      → IsForeign given
      → default ≢ ""
      → Each AtTarget (url_if_empty deps given default lines)
  unfolding url_if_empty ask_url
  url_if_empty-IsTarget given default lines f n =
      split_if (Each AtTarget) (str_eq given "") _ _
        (λ e. first_url-IsTarget default (prompt lines) n)
        (λ e. (ground (arith, e, eq_iff given ""), f))

  -- A single model has a foreign address and a name; a preset is one that the loader knows.
  abbrev pub VisionIsTarget : Vision → Type 0
  VisionIsTarget (single url key model) = IsTarget url × (model ≢ "")
  VisionIsTarget (preset kind key) = (kind ≡ "glm_free") ⊎ (kind ≡ "qwen")

  or_text-not_empty : (a d : String) → d ≢ "" → or_text a d ≢ ""
  or_text-not_empty a d n =
      split_if (λ t. t ≢ "") (str_eq a "") d a (λ e. n) (λ e. not_empty a "" e)

  ask_if_empty-not_empty :
      (given default : String) (lines : List String)
      → default ≢ ""
      → (ask_if_empty deps given default lines).0 ≢ ""
  unfolding ask_if_empty
  ask_if_empty-not_empty given default lines n =
      split_if (λ (r : String × List String). r.0 ≢ "") (str_eq given "") _ (given, lines)
        (λ e. or_text-not_empty (prompt lines).0 default n) (λ e. not_empty given "" e)

  abbrev GoodVision : Vision × List String → Type 0
  GoodVision v = VisionIsTarget v.0

  manual_vision-IsTarget :
      (c : Chosen) (lines : List String)
      → IsForeign c.vision_url
      → Each GoodVision (manual_vision deps c lines)
  manual_vision-IsTarget c lines f =
      Each-and_then AtTarget GoodVision
        (url_if_empty deps c.vision_url "https://api.xiaomimimo.com/anthropic" lines) _
        (url_if_empty-IsTarget c.vision_url _ lines f (not_empty _ _ refl))
        (λ u t. (
          t,
          ask_if_empty-not_empty c.vision_model "mimo-v2.5"
              (ask_if_empty deps c.vision_key "" u.1).1 (not_empty _ _ refl),
        ))

  vision_choice-IsTarget :
      (c : Chosen) (u : String × List String)
      → IsForeign c.vision_url
      → Each GoodVision (vision_choice deps c u)
  vision_choice-IsTarget c (choice, lines) f =
      branches (Each GoodVision) (str_eq choice "" || str_eq choice "1") _ _ (inl refl) (
        branches (Each GoodVision) (str_eq choice "2") _ _ (inr refl)
          (manual_vision-IsTarget c lines f))

  vision_step-IsTarget :
      (c : Chosen) (lines : List String)
      → IsForeign c.vision_url
      → Each GoodVision (vision_step deps c lines)
  unfolding vision_step
  vision_step-IsTarget c lines f =
      branches (Each GoodVision) (str_eq c.vision_url "") _ _
        (vision_choice-IsTarget c (prompt lines) f) (manual_vision-IsTarget c lines f)

  -- Neither address leads back to the proxy.
  abbrev pub IsSafe : SetupConfig → Type 0
  IsSafe cfg = IsTarget cfg.upstream_url × VisionIsTarget cfg.vision

  abbrev SafeConfig : SetupConfig × List String → Type 0
  SafeConfig r = IsSafe r.0

  fill_in-IsSafe :
      (start : Chosen × List String) → HasForeign start.0 → Each SafeConfig (fill_in deps start)
  unfolding fill_in
  fill_in-IsSafe (c, lines) h =
      Each-and_then AtTarget SafeConfig
        (url_if_empty deps c.upstream_url "https://api.deepseek.com/anthropic" lines) _
        (url_if_empty-IsTarget c.upstream_url _ lines h.0 (not_empty _ _ refl))
        (λ u t.
          let key = ask_if_empty deps c.upstream_key "" u.1 in
          Each-and_then GoodVision SafeConfig (vision_step deps c key.1) _
            (vision_step-IsTarget c key.1 h.1) (λ v g. (t, g)))

  -- A setup that ends with 0 has written settings that are safe; any other has left the file, unless the
  -- write failed, and has connected nothing.
  abbrev pub Saved : SetupRun → Type 0
  Saved run =
      ((run.code ≡ 0)
        × (cfg : SetupConfig) × (run.file ≡ saved (generate_config_yaml cfg))
        × IsSafe cfg)
      ⊎ ((run.code ≢ 0)
          × ((run.file ≡ unchanged) ⊎ ((deps.write_fails ≡ true) × (run.file ≡ in_doubt)))
          × (run.connected ≡ none))

  cancelled-Saved : Saved (cancelled deps)
  cancelled-Saved = inr ((λ q. ground arith), inl refl, refl)

  save-Saved : (cfg : SetupConfig) (lines : List String) → IsSafe cfg → Saved (save deps cfg lines)
  save-Saved cfg lines safe =
      split_if Saved deps.write_fails _ _ (λ e. inr ((λ q. ground arith), inr (e, refl), refl))
        (λ e. inl (refl, cfg, refl, safe))

  check_and_save-Saved :
      (o : Option (SetupConfig × List String)) → Each SafeConfig o → Saved (check_and_save deps o)
  check_and_save-Saved none e = cancelled-Saved
  check_and_save-Saved (some (cfg, lines)) safe =
      branches Saved (deps.doctor cfg == 0) _ _ (save-Saved cfg lines safe) (
        branches Saved (ask_yes_no deps false lines).0 _ _
          (save-Saved cfg (ask_yes_no deps false lines).1 safe) cancelled-Saved)

  -- Whatever is typed and imported: if the setup ends with 0, it has written settings whose
  -- upstream has an address that the test of the wizard itself does not take for the proxy's own,
  -- and whose vision model is either single, with such an address and a name, or one of the two
  -- presets; otherwise config.yaml is as it was, unless the write itself has failed, and Claude
  -- Code is not connected.
  pub run_setup_core-Saved : (lines : List String) → Saved (run_setup_core deps lines)
  unfolding run_setup_core
  run_setup_core-Saved lines =
      check_and_save-Saved _
        (fill_in-IsSafe (import_step deps lines) (import_step-HasForeign lines))
