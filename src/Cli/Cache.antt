-- ===== src/Cli/Cache.antt =====
-- cli/cache.go: the subcommand cache over the table of cache/sqlite.go. The texts that go out are
-- values here, and `slice` leaves a character out that the cut of a byte slice would split.
pub mod Cleared
pub mod Drift
pub mod Listed
pub mod Starved
use Prim.Native.String.{◌++◌ as ◌++ₛ◌, slice, len}
use blind_llm_eyes.Base.{
  ℕ, ◌+◌, ◌-◌, ◌*◌, String, str_eq, ltb, if◌then◌else◌, Bool, not, ◌&&◌, ◌||◌, Option, none, some,
  List, [], ◌∷◌, ◌++◌, length, ℤ, pos, negsuc,
}
use blind_llm_eyes.Base.Floats.{Floats}
use blind_llm_eyes.Base.Results.{Result, ok, err}
use blind_llm_eyes.Messages.Validate.{trim_space}
use blind_llm_eyes.Cache.Sqlite.{Row, Sqlite, limit, sort_by_access}
use blind_llm_eyes.Cache.Sqlite.Open.{Opening, OpenError, open_sqlite}
use blind_llm_eyes.Config.{Config, LoadError, Outside}
use blind_llm_eyes.Config.Whole.{load}

-- The flags of the subcommands.
pub record CacheFlags : Type 0 where
  pub config_path : String
  pub limit : ℤ
  pub assume_yes : Bool

-- The database and the terminal: what the steps of a command meet. `meanwhile` is what other processes
-- do to the table while stats has it open.
pub record Terminal : Type 0 where
  pub exists : Bool
  pub opening : Opening
  pub meanwhile : List Row → List Row
  pub count_fails : Bool
  pub sum_fails : Bool
  pub range_fails : Bool
  pub journal_mode : String
  pub file_size : Option ℕ
  pub open_fails : Bool
  pub query_fails : Bool
  pub scan_fails : Row → Bool
  pub delete_fails : Bool
  pub answer : String
  pub equal_fold : String → String → Bool

pub data Line : Type 0 where
  usage load_failed no_store lru_only prompt cancelled failed : Line
  kind_is db_path journal_mode : String → Line
  db_exists : Bool → Line
  memory_count actual_count entries total_bytes oldest_access newest_access file_bytes deleted :
      ℕ → Line
  drift : (memory actual : ℕ) → Line
  entry : (hash description : String) → (access : ℕ) → Line

-- The exit code, what is written, and the rows behind it.
pub record Ran : Type 0 where
  pub code : ℕ
  pub out : List Line
  pub rows : List Row

-- resolveDBPath
unfoldable pub resolve_db_path : {Float : Type 0} → Config Float → String
resolve_db_path c = if str_eq c.cache.db_path "" then "./cache.db" else c.cache.db_path

abbrev pub is_two_tier : {Float : Type 0} → Config Float → Bool
is_two_tier c = str_eq c.cache.kind "twotier"

abbrev pub ran : ℕ → List Line → List Row → Ran
ran code out rows = record { code = code; out = out; rows = rows }

abbrev pub path_lines : {Float : Type 0} → Terminal → Config Float → List Line
path_lines t c =
    kind_is c.cache.kind
    ∷ (db_path (resolve_db_path c)
        ∷ ((if is_two_tier c then db_exists t.exists else no_store) ∷ []))

-- runCachePath
unfoldable pub run_cache_path : {Float : Type 0} → Terminal → Config Float → List Row → Ran
run_cache_path t c rows = ran 0 (path_lines t c) rows

unfoldable pub sum_bytes : List Row → ℕ
sum_bytes [] = 0
sum_bytes (r ∷ rs) = r.size_bytes + sum_bytes rs

abbrev pub smaller : ℕ → Option ℕ → ℕ
smaller n none = n
smaller n (some k) = if ltb k n then k else n

abbrev pub larger : ℕ → Option ℕ → ℕ
larger n none = n
larger n (some k) = if ltb n k then k else n

-- MIN(last_accessed), MAX(last_accessed)
unfoldable pub oldest : List Row → Option ℕ
oldest [] = none
oldest (r ∷ rs) = some (smaller r.last_accessed (oldest rs))

unfoldable pub newest : List Row → Option ℕ
newest [] = none
newest (r ∷ rs) = some (larger r.last_accessed (newest rs))

abbrev pub line_of : (ℕ → Line) → Option ℕ → List Line
line_of l none = []
line_of l (some n) = l n ∷ []

abbrev pub unless_failed : {A : Type 0} → Bool → Option A → Option A
unless_failed fails o = if fails then none else o

-- The distance of the counts is more than a twentieth of the rows.
unfoldable pub drifts : (memory actual : ℕ) → Bool
drifts memory actual = ltb 0 actual && ltb actual (20 * ((memory - actual) + (actual - memory)))

abbrev pub drift_lines : (memory actual : ℕ) → List Line
drift_lines memory actual = if drifts memory actual then drift memory actual ∷ [] else []

abbrev pub stats_lines : Terminal → (memory : ℕ) → List Row → List Line
stats_lines t memory rows =
    (memory_count memory
      ∷ (actual_count (length rows)
          ∷ (entries (length rows)
              ∷ (total_bytes (if t.sum_fails then 0 else sum_bytes rows) ∷ []))))
    ++ (line_of oldest_access (unless_failed t.range_fails (oldest rows))
        ++ (line_of newest_access (unless_failed t.range_fails (newest rows))
            ++ (line_of file_bytes t.file_size
                ++ (journal_mode t.journal_mode ∷ drift_lines memory (length rows)))))

abbrev pub stats_of : Terminal → List Row → Result OpenError Sqlite → Ran
stats_of t rows (err e) = ran 1 (failed ∷ []) rows
stats_of t rows (ok s) =
    let found = t.meanwhile s.rows in
    if t.count_fails then ran 1 (failed ∷ []) found else ran 0 (stats_lines t s.count found) found

-- runCacheStats. An error of the opening leaves the rows as they were here; the counts are below 2 ^ 50,
-- where the quotient of floats is compared as the numbers are.
unfoldable pub run_cache_stats : {Float : Type 0} → Terminal → Config Float → List Row → Ran
run_cache_stats t c rows =
    if not (is_two_tier c)
    then ran 1 (lru_only ∷ []) rows
    else stats_of t rows (open_sqlite t.opening (resolve_db_path c) 0 0 rows)

unfoldable pub reverse_onto : List Row → List Row → List Row
reverse_onto [] acc = acc
reverse_onto (r ∷ rs) acc = reverse_onto rs (r ∷ acc)

-- ORDER BY last_accessed DESC, which runs through the index from its end.
unfoldable pub newest_first : List Row → List Row
newest_first rows = reverse_onto (sort_by_access rows) []

-- LIMIT ?, where a negative number is no limit.
abbrev pub limit_rows : ℤ → List Row → List Row
limit_rows (pos n) rows = limit n rows
limit_rows (negsuc n) rows = rows

abbrev pub line_of_row : Row → Line
line_of_row r =
    entry (if ltb 12 (len r.hash) then slice r.hash 0 12 else r.hash)
      (if ltb 60 (len r.description) then slice r.description 0 60 ++ₛ "…" else r.description)
      r.last_accessed

-- A row that cannot be read is left out.
unfoldable pub entry_lines : (Row → Bool) → List Row → List Line
entry_lines scan_fails [] = []
entry_lines scan_fails (r ∷ rs) =
    let rest = entry_lines scan_fails rs in if scan_fails r then rest else line_of_row r ∷ rest

-- runCacheList
unfoldable pub run_cache_list : {Float : Type 0} → Terminal → ℤ → Config Float → List Row → Ran
run_cache_list t n c rows =
    if not (is_two_tier c)
    then ran 1 (lru_only ∷ []) rows
    else if t.open_fails || t.query_fails
    then ran 1 (failed ∷ []) rows
    else ran 0 (entry_lines t.scan_fails (limit_rows n (newest_first rows))) rows

-- The answer to the question, which is no unless it is y or yes.
unfoldable pub confirmed : Terminal → Bool
confirmed t = str_eq (trim_space t.answer) "y" || t.equal_fold (trim_space t.answer) "yes"

abbrev pub clear_rows : Terminal → List Line → List Row → Ran
clear_rows t asked rows =
    if t.open_fails || t.delete_fails
    then ran 1 (asked ++ (failed ∷ [])) rows
    else ran 0 (asked ++ (deleted (length rows) ∷ [])) []

-- runCacheClear
unfoldable pub run_cache_clear : {Float : Type 0} → Terminal → Bool → Config Float → List Row → Ran
run_cache_clear t assume_yes c rows =
    if not (is_two_tier c)
    then ran 1 (lru_only ∷ []) rows
    else if assume_yes
    then clear_rows t [] rows
    else if confirmed t
    then clear_rows t (prompt ∷ []) rows
    else ran 2 (prompt ∷ (cancelled ∷ [])) rows

-- `none` in place of the flags is flags that do not parse.
abbrev pub loaded :
    {Float : Type 0}
    → (Config Float → List Row → Ran)
    → List Row
    → Result LoadError (Config Float)
    → Ran
loaded run rows (err e) = ran 1 (load_failed ∷ []) rows
loaded run rows (ok c) = run c rows

module _ (floats : Floats) (out : Outside (floats.Float)) (t : Terminal) where
  abbrev pub with_flags :
      (CacheFlags → Config (floats.Float) → List Row → Ran) → Option CacheFlags → List Row → Ran
  with_flags run none rows = ran 2 (usage ∷ []) rows
  with_flags run (some f) rows = loaded (run f) rows (load floats out f.config_path)

  -- runCache
  unfoldable pub run_cache :
      (parse_flags : List String → Option CacheFlags) → List String → List Row → Ran
  run_cache parse_flags [] rows = ran 2 (usage ∷ []) rows
  run_cache parse_flags (cmd ∷ rest) rows =
      if str_eq cmd "path"
      then with_flags (λ f. run_cache_path t) (parse_flags rest) rows
      else if str_eq cmd "stats"
      then with_flags (λ f. run_cache_stats t) (parse_flags rest) rows
      else if str_eq cmd "list"
      then with_flags (λ f. run_cache_list t f.limit) (parse_flags rest) rows
      else if str_eq cmd "clear"
      then with_flags (λ f. run_cache_clear t f.assume_yes) (parse_flags rest) rows
      else ran 2 (usage ∷ []) rows
