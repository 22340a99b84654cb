-- ===== src/Cli/Settings/Connected.antt =====
-- What a connect does to the settings and to the backup.
use blind_llm_eyes.Base.{
  if◌then◌else◌, subst, ◌≡◌, ◌⊎◌, inl, inr, refl, sym, ◌∙◌, ap, String, Bool, true, false, Option,
  none, some, arith, Bool-cases, Option-cases,
}
use blind_llm_eyes.Base.Results.{Result, ok, err}
use blind_llm_eyes.Cli.Settings.{
  Disk, Faults, Write, Json, Outcome, SettingsError, mkdir, write_temp, rename, write_backup,
  read_settings, written, write_fails, atomic_write, original, back_up, wire, then_write, then_wire,
  connect_settings,
}

write_cases :
    {File : Type 0} (w : Write File)
    → (w ≡ written) ⊎ ((left : Option File) × (w ≡ write_fails left))
write_cases written = inl refl
write_cases (write_fails left) = inr (left, refl)

pub else_branch : {A : Type 0} (x y : A) (b : Bool) → b ≡ false → (if b then x else y) ≡ y
else_branch x y true e = cc
else_branch x y false e = refl

module _ {File : Type 0} where
  pub atomic_write_backup :
      (f : Faults File) (text : File) (d : Disk File) → (atomic_write f text d).0.backup ≡ d.backup
  unfolding atomic_write
  atomic_write_backup f text d = ground arith

  atomic_write_all :
      (f : Faults File) (text : File) (d : Disk File)
      → ((e : SettingsError) × ((atomic_write f text d).1 ≡ err e)
          × ((atomic_write f text d).0.settings ≡ d.settings))
        ⊎ (((atomic_write f text d).1 ≡ ok tt) × ((atomic_write f text d).0.settings ≡ some text))
  unfolding atomic_write
  atomic_write_all f text d = by_write f.mkdir_fails f.temp_write f.rename_fails refl refl refl
    where
      by_write :
          (m : Bool) (w : Write File) (r : Bool)
          → f.mkdir_fails ≡ m
          → f.temp_write ≡ w
          → f.rename_fails ≡ r
          → ((e : SettingsError) × ((atomic_write f text d).1 ≡ err e)
              × ((atomic_write f text d).0.settings ≡ d.settings))
            ⊎ (((atomic_write f text d).1 ≡ ok tt)
                × ((atomic_write f text d).0.settings ≡ some text))
      by_write true w r a b c = inl (mkdir, ground arith, ground arith)
      by_write false (write_fails left) r a b c = inl (write_temp, ground arith, ground arith)
      by_write false written true a b c = inl (rename, ground arith, ground arith)
      by_write false written false a b c = inr (ground arith, ground arith)

module _ {File : Type 0} (json : Json File) where
  -- The backup that is there behind a connect.
  abbrev pub saved : Disk File → File
  saved d = elim d.backup [ some b ↦ b | none ↦ original json d ]

  -- Nothing happens to the settings, or they are the old ones with the address of the proxy, and the
  -- old ones are saved, unless a backup was there.
  abbrev pub Connected : String → Disk File → Disk File × Outcome → Type 0
  Connected url d r =
      ((e : SettingsError) × (r.1 ≡ err e) × (r.0.settings ≡ d.settings))
      ⊎ ((text : File) × (r.1 ≡ ok tt)
          × (wire json url d.settings ≡ ok text)
          × (r.0.settings ≡ some text)
          × (r.0.backup ≡ some (saved d)))

  back_up_all :
      (f : Faults File) (d : Disk File)
      → ((back_up json f d).0.settings ≡ d.settings)
        × (((e : SettingsError) × ((back_up json f d).1 ≡ err e))
            ⊎ (((back_up json f d).1 ≡ ok tt) × ((back_up json f d).0.backup ≡ some (saved d))))
  unfolding back_up
  back_up_all f d = elim (Option-cases d.backup) [
    | inl e ↦ elim (write_cases f.backup_write) [
      | inl w ↦ (ground arith, inr (ground arith, ground arith))
      | inr (left, w) ↦ (ground arith, inl (write_backup, ground arith))
    ]
    | inr (b, e) ↦ (ground arith, inr (ground arith, ground arith))
  ]

  wired :
      (f : Faults File) (url : String) (d b : Disk File) (r : Result SettingsError File)
      → b.settings ≡ d.settings
      → b.backup ≡ some (saved d)
      → wire json url d.settings ≡ r
      → Connected url d (then_write json f b r)
  wired f url d b (err e) same kept w = inl (e, refl, same)
  wired f url d b (ok text) same kept w = elim (atomic_write_all f text b) [
    | inl (e, failed, old) ↦ inl (e, failed, old ∙ same)
    | inr (done, new) ↦ inr (text, done, w, new, atomic_write_backup f text b ∙ kept)
  ]

  backed_up :
      (f : Faults File) (url : String) (d : Disk File)
      → ((back_up json f d).0.settings ≡ d.settings)
        × (((e : SettingsError) × ((back_up json f d).1 ≡ err e))
            ⊎ (((back_up json f d).1 ≡ ok tt) × ((back_up json f d).0.backup ≡ some (saved d))))
      → Connected url d (then_wire json f url (back_up json f d).0 (back_up json f d).1)
  backed_up f url d (same, inl (e, failed)) = rw failed (inl (e, refl, same))
  backed_up f url d (same, inr (done, kept)) = rw done (
      wired f url d (back_up json f d).0 (wire json url (back_up json f d).0.settings) same kept
        (ap (wire json url) (sym same)))

  -- Whatever system calls fail and whatever the file holds: if connect answers with an error,
  -- settings.json is as it was; else it holds the whole of the new text, which is the old text with
  -- the address set, and the backup is the one that was there before or, if there was none, the old
  -- text (nothing, where there was no file).
  pub connect_settings-Connected :
      (f : Faults File) (url : String) (d : Disk File)
      → Connected url d (connect_settings json f url d)
  unfolding connect_settings
  connect_settings-Connected f url d = elim (Bool-cases f.read_fails) [
    | inl e ↦ inl (read_settings, ground arith, ground arith)
    | inr e ↦
        subst (Connected url d) (sym (else_branch _ _ f.read_fails e))
          (backed_up f url d (back_up_all f d))
  ]
