-- ===== src/Cache/Sqlite/Open/Recovered.antt =====
-- What OpenSQLite leaves of the rows, and that corruption does not keep it from opening.
use blind_llm_eyes.Base.{
  ℕ, ◌≡◌, refl, ◌⊎◌, inl, inr, sym, ◌∙◌, subst, String, Bool, true, false, if◌then◌else◌, List, [],
}
use blind_llm_eyes.Base.Results.{
  >>-eq-ok, ok, ◌>>=◌, ◌>>◌, reject, >>=-eq-ok, reject->>-eq-ok, ok_eq,
}
use blind_llm_eyes.Cache.Sqlite.{Row, Sqlite, open_count}
use blind_llm_eyes.Cache.Sqlite.Counts.{AreDistinct, IsCounted}
use blind_llm_eyes.Cache.Sqlite.Counted.{Call, run_calls, run_calls-IsCounted}
use blind_llm_eyes.Cache.Sqlite.Open.{
  Rebuild, Opening, rebuild_db, is_ok, apply_corruption_recovery, or_default, open_failure,
  open_sqlite,
}

-- Nothing of the rows is changed, but that all of them may be gone.
abbrev pub KeptOrGone : List Row → List Row → Type 0
KeptOrGone rows rest = (rest ≡ rows) ⊎ (rest ≡ [])

KeptOrGone-trans : (a b c : List Row) → KeptOrGone a b → KeptOrGone b c → KeptOrGone a c
KeptOrGone-trans a b c k (inr e) = inr e
KeptOrGone-trans a b c (inl e) (inl f) = inl (f ∙ e)
KeptOrGone-trans a b c (inr e) (inl f) = inr (f ∙ e)

branch-KeptOrGone : (b : Bool) (rows : List Row) → KeptOrGone rows (if b then rows else [])
branch-KeptOrGone true rows = inl refl
branch-KeptOrGone false rows = inr refl

rebuild_db-KeptOrGone :
    (b : Rebuild) (rows rest : List Row) → rebuild_db b rows ≡ ok rest → KeptOrGone rows rest
unfolding rebuild_db
rebuild_db-KeptOrGone b rows rest h =
    let (reopened, h0) = reject->>-eq-ok _ h in
    let (usable, h1) = reject->>-eq-ok _ h0 in
    subst (KeptOrGone rows) (ok_eq h1) (branch-KeptOrGone b.remove_fails rows)

first_step-KeptOrGone :
    (c : Bool) (b : Rebuild) (rows rest : List Row)
    → (if c then rebuild_db b rows else ok rows) ≡ ok rest
    → KeptOrGone rows rest
first_step-KeptOrGone true b rows rest h = rebuild_db-KeptOrGone b rows rest h
first_step-KeptOrGone false b rows rest h = inl (sym (ok_eq h))

second_step-KeptOrGone :
    (c : Bool) (b : Rebuild) (rows rest : List Row)
    → (if c then ok rows else rebuild_db b rows) ≡ ok rest
    → KeptOrGone rows rest
second_step-KeptOrGone true b rows rest h = inl (sym (ok_eq h))
second_step-KeptOrGone false b rows rest h = rebuild_db-KeptOrGone b rows rest h

distinct_kept : (rows rest : List Row) → AreDistinct rows → KeptOrGone rows rest → AreDistinct rest
distinct_kept rows rest d (inl e) = subst AreDistinct (sym e) d
distinct_kept rows rest d (inr e) = subst AreDistinct (sym e) tt

-- If OpenSQLite opens a file with distinct hashes, it keeps all rows or none, and after any calls,
-- whichever statements fail, the counter is the number of the rows and no two rows have one hash.
pub open_sqlite-IsCounted :
    (o : Opening) (path : String) (max_entries ttl : ℕ) (rows : List Row) (s : Sqlite)
    (cs : List Call)
    → open_sqlite o path max_entries ttl rows ≡ ok s
    → AreDistinct rows
    → KeptOrGone rows s.rows × IsCounted (run_calls cs s)
unfolding open_sqlite apply_corruption_recovery open_count
open_sqlite-IsCounted o path max_entries ttl rows s cs h d =
    let (usable, first, h0) = >>=-eq-ok (>>-eq-ok (open_failure o (or_default path)) h) in
    let (sound, second, h1) = >>=-eq-ok h0 in
    let (created, h2) = reject->>-eq-ok _ h1 in
    let (counted, h3) = reject->>-eq-ok _ h2 in
    let kept =
      KeptOrGone-trans rows usable sound
        (first_step-KeptOrGone o.pragma_fails o.first_rebuild rows usable first)
        (second_step-KeptOrGone (is_ok o.integrity_check) o.second_rebuild usable sound second) in
    subst (λ s. KeptOrGone rows s.rows × IsCounted (run_calls cs s)) (ok_eq h3)
      (
        kept,
        run_calls-IsCounted cs
            (record {
              rows = sound;
              max_entries = max_entries;
              ttl = ttl;
              count = 0;
              evicting = false;
            })
            (distinct_kept rows sound d kept),
      )

abbrev pub CanRebuild : Rebuild → Type 0
CanRebuild b = (b.reopen_fails ≡ false) × (b.pragma_fails ≡ false)

rebuild_db_ok :
    (b : Rebuild) (rows : List Row)
    → CanRebuild b
    → rebuild_db b rows ≡ ok (if b.remove_fails then rows else [])
unfolding rebuild_db ◌>>◌ reject
rebuild_db_ok b rows c = rw (c.0, c.1) refl

first_step_ok :
    (c : Bool) (b : Rebuild) (rows : List Row)
    → CanRebuild b
    → (rest : List Row) × ((if c then rebuild_db b rows else ok rows) ≡ ok rest)
first_step_ok true b rows can = (_, rebuild_db_ok b rows can)
first_step_ok false b rows can = (rows, refl)

second_step_ok :
    (c : Bool) (b : Rebuild) (rows : List Row)
    → CanRebuild b
    → (rest : List Row) × ((if c then ok rows else rebuild_db b rows) ≡ ok rest)
second_step_ok true b rows can = (rows, refl)
second_step_ok false b rows can = (_, rebuild_db_ok b rows can)

abbrev sqlite_of : ℕ → ℕ → List Row → Sqlite
sqlite_of max_entries ttl rows =
    open_count
      (record { rows = rows; max_entries = max_entries; ttl = ttl; count = 0; evicting = false })

-- If the directory can be made, the file can be opened, both rebuilds can reopen it, and the table can
-- be made and counted, then OpenSQLite opens the file, however corrupt it is.
pub open_sqlite_recovers :
    (o : Opening) (path : String) (max_entries ttl : ℕ) (rows : List Row)
    → open_failure o (or_default path) ≡ ok tt
    → CanRebuild o.first_rebuild
    → CanRebuild o.second_rebuild
    → o.create_fails ≡ false
    → o.count_fails ≡ false
    → (s : Sqlite) × (open_sqlite o path max_entries ttl rows ≡ ok s)
unfolding open_sqlite apply_corruption_recovery ◌>>=◌ ◌>>◌ reject
open_sqlite_recovers o path max_entries ttl rows opened first second created counted =
    let (usable, e) = first_step_ok o.pragma_fails o.first_rebuild rows first in
    let (sound, f) = second_step_ok (is_ok o.integrity_check) o.second_rebuild usable second in
    (sqlite_of max_entries ttl sound, rw (opened, e, f, created, counted) refl)
