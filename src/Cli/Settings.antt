-- ===== src/Cli/Settings.antt =====
-- cli/settings.go and cli/connect.go: settings.json of Claude Code, its backup, and the temporary file
-- of atomicWrite. The three paths are different. What the system calls do stands in Faults, and
-- package encoding/json in Json, where a json.RawMessage is a value without its layout.
pub mod Connected
pub mod Restored
pub mod Wired
use blind_llm_eyes.Base.{String, str_eq, Bool, if◌then◌else◌, Option, none, some, List, [], ◌∷◌}
use blind_llm_eyes.Base.Results.{Result, ok, err, ◌>>=◌, or_err}

-- What stands at the paths.
pub record Disk (File : Type 0) : Type 0 where
  pub settings : Option File
  pub backup : Option File
  pub temp : Option File

-- os.WriteFile: a call that fails may have written a part.
pub data Write (File : Type 0) : Type 0 where
  written : Write File
  write_fails : Option File → Write File

pub record Faults (File : Type 0) : Type 0 where
  pub read_fails : Bool
  pub backup_write : Write File
  pub mkdir_fails : Bool
  pub temp_write : Write File
  pub rename_fails : Bool
  pub remove_fails : Bool

pub data SettingsError : Type 0 where
  read_settings write_backup parse_settings parse_env mkdir write_temp rename no_backup read_backup
        remove_settings panicked :
      SettingsError

-- The value of a map[string]json.RawMessage behind json.Unmarshal, which leaves a nil map for null.
pub data Parsed (Raw : Type 0) : Type 0 where
  nil_map : Parsed Raw
  entries : List (String × Raw) → Parsed Raw

pub record Json (File : Type 0) : Type 1 where
  -- the file of no bytes, and len(backup) == 0
  pub blank : File
  pub is_blank : File → Bool
  pub Raw : Type 0
  -- json.Unmarshal of a file and of a value; json.Marshal of a map and of a text
  pub parse_file : File → Option (Parsed Raw)
  pub parse_raw : Raw → Option (Parsed Raw)
  pub raw_map : List (String × Raw) → Raw
  pub raw_text : String → Raw
  -- json.MarshalIndent, and the line end behind it
  pub print_file : List (String × Raw) → File

-- m[k], ok
unfoldable pub lookup {ℓ} : {A : Type ℓ} → String → List (String × A) → Option A
lookup k [] = none
lookup k (e ∷ es) = if str_eq e.0 k then some e.1 else lookup k es

-- m[k] = v
unfoldable pub assign {ℓ} : {A : Type ℓ} → String → A → List (String × A) → List (String × A)
assign k v [] = (k, v) ∷ []
assign k v (e ∷ es) = if str_eq e.0 k then (k, v) ∷ es else e ∷ assign k v es

abbrev pub Outcome : Type 0
Outcome = Result SettingsError (Unit {0})

module _ {File : Type 0} where
  -- What a path holds behind os.WriteFile.
  abbrev pub held : Write File → File → Option File
  held written text = some text
  held (write_fails left) text = left

  abbrev pub write_result : Write File → SettingsError → Outcome
  write_result written e = ok tt
  write_result (write_fails left) e = err e

  abbrev pub then_rename : Faults File → Disk File → File → Outcome → Disk File × Outcome
  then_rename f d text (err e) = (d, err e)
  then_rename f d text (ok u) =
      if f.rename_fails
      then (d, err rename)
      else (record d { settings = some text; temp = none }, ok tt)

  -- atomicWrite of settings.json
  unfoldable pub atomic_write : Faults File → File → Disk File → Disk File × Outcome
  atomic_write f text d =
      if f.mkdir_fails
      then (d, err mkdir)
      else then_rename f (record d { temp = held f.temp_write text }) text
          (write_result f.temp_write write_temp)

module _ {File : Type 0} (json : Json File) where
  open json use {blank, is_blank, Raw, parse_file, parse_raw, raw_map, raw_text, print_file}

  -- The backup that stands there is kept; else it is the settings, or empty where there are none.
  abbrev pub original : Disk File → File
  original d = elim d.settings [ some s ↦ s | none ↦ blank ]

  -- The backup is there or not; an error of os.Stat that tells neither is left out.
  unfoldable pub back_up : Faults File → Disk File → Disk File × Outcome
  back_up f d = elim d.backup [
    | some b ↦ (d, ok tt)
    | none ↦ (
      record d { backup = held f.backup_write (original d) },
      write_result f.backup_write write_backup,
    )
  ]

  -- An assignment to a nil map panics.
  abbrev pub writable : Parsed Raw → Result SettingsError (List (String × Raw))
  writable nil_map = err panicked
  writable (entries es) = ok es

  abbrev pub parsed_settings : Option File → Result SettingsError (Parsed Raw)
  parsed_settings none = ok (entries [])
  parsed_settings (some s) = or_err (parse_file s) parse_settings

  abbrev pub keys : Parsed Raw → List (String × Raw)
  keys nil_map = []
  keys (entries es) = es

  abbrev pub env_of : Option Raw → Result SettingsError (Parsed Raw)
  env_of none = ok (entries [])
  env_of (some raw) = or_err (parse_raw raw) parse_env

  -- The settings with env.ANTHROPIC_BASE_URL set.
  unfoldable pub wire : String → Option File → Result SettingsError File
  wire url settings = do
    top ← parsed_settings settings
    env ← env_of (lookup "env" (keys top))
    vars ← writable env
    es ← writable top
    ok (print_file (assign "env" (raw_map (assign "ANTHROPIC_BASE_URL" (raw_text url) vars)) es))

  abbrev pub then_write : Faults File → Disk File → Result SettingsError File → Disk File × Outcome
  then_write f d (err e) = (d, err e)
  then_write f d (ok text) = atomic_write f text d

  abbrev pub then_wire : Faults File → String → Disk File → Outcome → Disk File × Outcome
  then_wire f url d (err e) = (d, err e)
  then_wire f url d (ok u) = then_write f d (wire url d.settings)

  unfoldable pub connect_settings : Faults File → String → Disk File → Disk File × Outcome
  connect_settings f url d =
      if f.read_fails
      then (d, err read_settings)
      else let backed = back_up f d in then_wire f url backed.0 backed.1

  -- An empty backup stands for settings that were not there.
  abbrev pub restore : Faults File → File → Disk File → Disk File × Outcome
  restore f b d =
      if is_blank b
      then (if f.remove_fails
          then (d, err remove_settings)
          else (record d { settings = none }, ok tt))
      else atomic_write f b d

  unfoldable pub disconnect_settings : Faults File → Disk File → Disk File × Outcome
  disconnect_settings f d = elim d.backup [
    | none ↦ (d, err no_backup)
    | some b ↦ if f.read_fails then (d, err read_backup) else restore f b d
  ]
