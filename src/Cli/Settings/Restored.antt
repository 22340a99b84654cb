-- ===== src/Cli/Settings/Restored.antt =====
-- What disconnect brings back.
use blind_llm_eyes.Base.{
  if◌then◌else◌, List, [], ◌∷◌, ◌≡◌, inl, inr, refl, ◌∙◌, ap, String, false, Option, none, some,
  arith, Bool-cases, Option-cases,
}
use blind_llm_eyes.Base.Results.{Result, ok, err}
use blind_llm_eyes.Cli.Settings.{
  disconnect_settings, Disk, Faults, Json, Outcome, SettingsError, written, atomic_write, back_up,
  wire, then_write, then_wire, connect_settings,
}
use blind_llm_eyes.Cli.Settings.Connected.{else_branch, atomic_write_backup, saved}

module _ {File : Type 0} where
  -- The calls of atomicWrite and the removal succeed.
  abbrev pub AllWell : Faults File → Type 0
  AllWell f =
      (f.read_fails ≡ false)
      × (f.mkdir_fails ≡ false)
      × (f.temp_write ≡ written)
      × (f.rename_fails ≡ false)
      × (f.remove_fails ≡ false)

module _ {File : Type 0} (json : Json File) where
  then_write_backup :
      (f : Faults File) (b : Disk File) (r : Result SettingsError File)
      → (then_write json f b r).0.backup ≡ b.backup
  then_write_backup f b (err e) = refl
  then_write_backup f b (ok text) = atomic_write_backup f text b

  then_wire_backup :
      (f : Faults File) (url : String) (b : Disk File) (o : Outcome)
      → (then_wire json f url b o).0.backup ≡ b.backup
  then_wire_backup f url b (err e) = refl
  then_wire_backup f url b (ok u) = then_write_backup f b (wire json url b.settings)

  back_up_saves :
      (f : Faults File) (d : Disk File)
      → f.backup_write ≡ written
      → (back_up json f d).0.backup ≡ some (saved json d)
  unfolding back_up
  back_up_saves f d w = elim (Option-cases d.backup) [
    | inl e ↦ ground arith
    | inr (b, e) ↦ ground arith
  ]

  connect_saves :
      (f : Faults File) (url : String) (d : Disk File)
      → f.read_fails ≡ false
      → f.backup_write ≡ written
      → (connect_settings json f url d).0.backup ≡ some (saved json d)
  unfolding connect_settings
  connect_saves f url d r w =
      ap (λ (x : Disk File × Outcome). x.0.backup) (else_branch _ _ f.read_fails r)
      ∙ then_wire_backup f url (back_up json f d).0 (back_up json f d).1
      ∙ back_up_saves f d w

  connect_keeps :
      (f : Faults File) (url : String) (d : Disk File) (b : File)
      → d.backup ≡ some b
      → (connect_settings json f url d).0.backup ≡ some b
  unfolding connect_settings back_up
  connect_keeps f url d b e = elim (Bool-cases f.read_fails) [
    | inl r ↦ ground arith
    | inr r ↦
        ap (λ (x : Disk File × Outcome). x.0.backup) (else_branch _ _ f.read_fails r)
        ∙ then_wire_backup f url (back_up json f d).0 (back_up json f d).1
        ∙ ground arith
  ]

  unfoldable pub connects : List (Faults File × String) → Disk File → Disk File
  connects [] d = d
  connects (c ∷ cs) d = connects cs (connect_settings json c.0 c.1 d).0

  connects_keep :
      (cs : List (Faults File × String)) (d : Disk File) (b : File)
      → d.backup ≡ some b
      → (connects cs d).backup ≡ some b
  unfolding connects
  connects_keep [] d b e = e
  connects_keep (c ∷ cs) d b e = connects_keep cs _ b (connect_keeps c.0 c.1 d b e)

  -- What a backup stands for.
  abbrev pub brought_back : File → Option File
  brought_back b = if json.is_blank b then none else some b

  disconnect_well :
      (f : Faults File) (d : Disk File) (b : File)
      → AllWell f
      → d.backup ≡ some b
      → ((disconnect_settings json f d).1 ≡ ok tt)
        × ((disconnect_settings json f d).0.settings ≡ brought_back b)
  unfolding disconnect_settings atomic_write
  disconnect_well f d b well e = ground arith

  -- After a connect that could read the settings and write the backup, and any number of further
  -- connects, which may fail or not, a disconnect whose system calls succeed brings back what the backup
  -- holds: a backup that was there before the first connect, however old it is, and else the settings
  -- from before the first connect; a file of no bytes counts as no file.
  pub disconnect-connects :
      (f g : Faults File) (url : String) (cs : List (Faults File × String)) (d : Disk File)
      → f.read_fails ≡ false
      → f.backup_write ≡ written
      → AllWell g
      → ((disconnect_settings json g (connects cs (connect_settings json f url d).0)).1 ≡ ok tt)
        × ((disconnect_settings json g (connects cs (connect_settings json f url d).0)).0.settings
            ≡ brought_back (saved json d))
  disconnect-connects f g url cs d r w well =
      disconnect_well g _ (saved json d) well
        (connects_keep cs _ (saved json d) (connect_saves f url d r w))
