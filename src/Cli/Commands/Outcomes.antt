-- ===== src/Cli/Commands/Outcomes.antt =====
-- What the exit code of connect tells.
use Prim.Native.String.{◌++◌ as ◌++ₛ◌}
use blind_llm_eyes.Base.{ℕ, ◌≡◌, ◌⊎◌, inl, inr, refl, Bool, some, branches}
use blind_llm_eyes.Base.Results.{Result, ok, err}
use blind_llm_eyes.Base.Floats.{Floats}
use blind_llm_eyes.Config.{Config, LoadError, Outside}
use blind_llm_eyes.Config.Whole.{load}
use blind_llm_eyes.Cli.Settings.{Disk, Faults, Json, Outcome, wire}
use blind_llm_eyes.Cli.Settings.Connected.{Connected, connect_settings-Connected}
use blind_llm_eyes.Cli.Commands.{Flags, exit_with, connect_with, run_connect}

module _ {File : Type 0} (json : Json File) (floats : Floats) (out : Outside (floats.Float)) where
  -- The settings are wired to the address of the configuration, or are as they were.
  abbrev pub Told : Flags → Disk File → ℕ × Disk File → Type 0
  Told f d r =
      ((r.0 ≡ 0)
        × (c : Config (floats.Float)) × (text : File) × (load floats out f.config_path ≡ ok c)
        × (wire json ("http://" ++ₛ c.listen) d.settings ≡ ok text)
        × (r.1.settings ≡ some text))
      ⊎ ((r.0 ≡ 1) × (r.1.settings ≡ d.settings))

  exit_with-Told :
      (f : Flags) (d : Disk File) (c : Config (floats.Float)) (r : Disk File × Outcome)
      → load floats out f.config_path ≡ ok c
      → Connected json ("http://" ++ₛ c.listen) d r
      → Told f d (exit_with r)
  exit_with-Told f d c (e, ok u) l (inl (x, failed, same)) = cc
  exit_with-Told f d c (e, ok u) l (inr (text, done, wired, new, kept)) =
      inl (refl, c, text, l, wired, new)
  exit_with-Told f d c (e, err x) l (inl (y, failed, same)) = inr (refl, same)
  exit_with-Told f d c (e, err x) l (inr (text, done, wired, new, kept)) = cc

  connect_with-Told :
      (faults : Faults File) (home : Bool) (f : Flags) (d : Disk File)
      (m : Result LoadError (Config (floats.Float)))
      → load floats out f.config_path ≡ m
      → Told f d (connect_with json floats out faults home f d m)
  connect_with-Told faults home f d (err e) l = inr (refl, refl)
  connect_with-Told faults home f d (ok c) l =
      branches (Told f d) _ _ _
        (exit_with-Told f d c _ l
          (connect_settings-Connected json faults ("http://" ++ₛ c.listen) d))
        (inr (refl, refl))

  -- connect exits with 0 only if the configuration is loaded and settings.json is wired to the address
  -- that it listens on; else it exits with 1, and settings.json is as it was. This holds whatever system
  -- calls fail.
  pub run_connect-Told :
      (faults : Faults File) (home : Bool) (f : Flags) (d : Disk File)
      → Told f d (run_connect json floats out faults home (some f) d)
  unfolding run_connect
  run_connect-Told faults home f d =
      connect_with-Told faults home f d (load floats out f.config_path) refl
