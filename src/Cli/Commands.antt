-- ===== src/Cli/Commands.antt =====
-- cli/cli.go and main.go: which subcommand runs; cli/connect.go: connect and disconnect, with their exit
-- codes.
pub mod Outcomes
use Prim.Native.String.{◌++◌ as ◌++ₛ◌}
use text.Mathlib.Text.{starts_with}
use blind_llm_eyes.Base.{
  ℕ, String, str_eq, Bool, not, ◌&&◌, ◌||◌, if◌then◌else◌, Option, none, some, List, [], ◌∷◌,
}
use blind_llm_eyes.Base.Results.{Result, ok, err}
use blind_llm_eyes.Base.Floats.{Floats}
use blind_llm_eyes.Config.{Config, LoadError, Outside}
use blind_llm_eyes.Config.Whole.{load}
use blind_llm_eyes.Cli.Settings.{Disk, Faults, Json, Outcome, connect_settings, disconnect_settings}

-- What main and cli.Run do with the arguments.
pub data Command : Type 0 where
  usage version start_advice unknown : Command
  run_server setup doctor connect disconnect status stop reload cache : List String → Command

-- cli.Run
unfoldable pub dispatch : List String → Command
dispatch [] = usage
dispatch (cmd ∷ rest) =
    if str_eq cmd "version"
    then version
    else if str_eq cmd "start"
    then start_advice
    else if str_eq cmd "setup"
    then setup rest
    else if str_eq cmd "doctor"
    then doctor rest
    else if str_eq cmd "connect"
    then connect rest
    else if str_eq cmd "disconnect"
    then disconnect rest
    else if str_eq cmd "status"
    then status rest
    else if str_eq cmd "stop"
    then stop rest
    else if str_eq cmd "reload"
    then reload rest
    else if str_eq cmd "cache"
    then cache rest
    else unknown

-- runServer takes the flags behind an optional start.
abbrev server_args : List String → List String
server_args [] = []
server_args (cmd ∷ rest) = if str_eq cmd "start" then rest else cmd ∷ rest

unfoldable pub main : List String → Command
main [] = run_server []
main (cmd ∷ rest) =
    if str_eq cmd "start" || starts_with cmd "-"
    then run_server (server_args (cmd ∷ rest))
    else dispatch (cmd ∷ rest)

-- The flags, which are empty where they are not given.
pub record Flags : Type 0 where
  pub config_path : String
  pub settings_path : String
  pub backup_path : String

-- os.UserHomeDir has an answer, which the default paths need.
abbrev paths_found : Bool → Flags → Bool
paths_found home f = home || (not (str_eq f.settings_path "") && not (str_eq f.backup_path ""))

abbrev pub exit_with : {File : Type 0} → Disk File × Outcome → ℕ × Disk File
exit_with (d, ok u) = (0, d)
exit_with (d, err e) = (1, d)

module _ {File : Type 0} (json : Json File) where
  -- The disk is the files at the paths that are chosen.
  unfoldable pub run_disconnect :
      Faults File → (home : Bool) → Option Flags → Disk File → ℕ × Disk File
  run_disconnect faults home none d = (2, d)
  run_disconnect faults home (some f) d =
      if paths_found home f then exit_with (disconnect_settings json faults d) else (1, d)

  module _ (floats : Floats) (out : Outside (floats.Float)) where
    abbrev pub connect_with :
        Faults File
        → Bool
        → Flags
        → Disk File
        → Result LoadError (Config (floats.Float))
        → ℕ × Disk File
    connect_with faults home f d (err e) = (1, d)
    connect_with faults home f d (ok cfg) =
        if paths_found home f
        then exit_with (connect_settings json faults ("http://" ++ₛ cfg.listen) d)
        else (1, d)

    unfoldable pub run_connect :
        Faults File → (home : Bool) → Option Flags → Disk File → ℕ × Disk File
    run_connect faults home none d = (2, d)
    run_connect faults home (some f) d =
        connect_with faults home f d (load floats out f.config_path)
