-- ===== src/Cache/Sqlite/Open.antt =====
-- cache/sqlite.go: OpenSQLite with the recovery from corruption. A database that is new is empty; what
-- the file holds behind an error is left out.
pub mod Recovered
use blind_llm_eyes.Base.{
  ℤ, pos, negsuc, ◌/◌, ℕ, String, str_eq, Bool, false, not, ◌&&◌, if◌then◌else◌, Option, none, some,
  List, [],
}
use blind_llm_eyes.Base.Results.{Result, ok, ◌>>=◌, ◌>>◌, reject}
use blind_llm_eyes.Cache.Sqlite.{Row, Sqlite, open_count}

pub data OpenError : Type 0 where
  create_dir_failed open_failed reopen_failed pragma_failed create_failed count_failed : OpenError

-- Which steps of rebuildDB fail. The removal of a file is tried only.
pub record Rebuild : Type 0 where
  pub remove_fails : Bool
  pub reopen_fails : Bool
  pub pragma_fails : Bool

-- filepath.Dir, which steps of OpenSQLite fail, and the answer of the integrity check.
pub record Opening : Type 0 where
  pub dir : String → String
  pub create_dir_fails : String → Bool
  pub open_fails : String → Bool
  pub pragma_fails : Bool
  pub first_rebuild : Rebuild
  pub integrity_check : Option String
  pub second_rebuild : Rebuild
  pub create_fails : Bool
  pub count_fails : Bool

-- The three files of the database are removed together, or not: if a removal fails, the rows are taken
-- to be there still.
unfoldable pub rebuild_db : Rebuild → List Row → Result OpenError (List Row)
rebuild_db b rows = do
  reject b.reopen_fails reopen_failed
  reject b.pragma_fails pragma_failed
  ok (if b.remove_fails then rows else [])

abbrev pub is_ok : Option String → Bool
is_ok none = false
is_ok (some result) = str_eq result "ok"

unfoldable pub apply_corruption_recovery : Opening → List Row → Result OpenError (List Row)
apply_corruption_recovery o rows =
    if is_ok o.integrity_check then ok rows else rebuild_db o.second_rebuild rows

-- A duration in nanoseconds; below a millisecond it is none.
abbrev pub milliseconds : ℤ → ℕ
milliseconds (pos n) = n / 1000000
milliseconds (negsuc n) = 0

abbrev pub or_default : String → String
or_default path = if str_eq path "" then "./cache.db" else path

-- The directory is made, unless it is the one of the process.
unfoldable pub open_failure : Opening → String → Result OpenError (Unit {0})
open_failure o path = do
  reject
      (not (str_eq (o.dir path) "")
        && not (str_eq (o.dir path) ".")
        && o.create_dir_fails (o.dir path))
      create_dir_failed
  reject (o.open_fails path) open_failed

-- `rows` is what the file at the path holds.
unfoldable pub open_sqlite :
    Opening → (path : String) (max_entries ttl : ℕ) → List Row → Result OpenError Sqlite
open_sqlite o path max_entries ttl rows = do
  open_failure o (or_default path)
  usable ← (if o.pragma_fails then rebuild_db o.first_rebuild rows else ok rows)
  sound ← apply_corruption_recovery o usable
  reject o.create_fails create_failed
  reject o.count_fails count_failed
  ok (
      open_count (record {
        rows = sound;
        max_entries = max_entries;
        ttl = ttl;
        count = 0;
        evicting = false;
      }))
