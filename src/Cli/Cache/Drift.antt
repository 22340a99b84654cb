-- ===== src/Cli/Cache/Drift.antt =====
-- cli/cache.go: when the subcommand stats warns of a counter that has drifted.
use blind_llm_eyes.Base.{
  [], ◌∷◌, All-append, ℕ, String, ◌≡◌, refl, subst, Bool, true, false, not, Option, none, some,
  List, arith, length, All, branches,
}
use blind_llm_eyes.Base.Results.{Result, ok, err, >>=-eq-ok, >>-eq-ok, reject->>-eq-ok, ok_eq}
use blind_llm_eyes.Config.{Config}
use blind_llm_eyes.Cache.Sqlite.{Row, Sqlite, open_count}
use blind_llm_eyes.Cache.Sqlite.Open.{open_failure, or_default, Opening, OpenError, open_sqlite}
use blind_llm_eyes.Cli.Cache.{
  journal_mode, oldest_access, newest_access, file_bytes, Terminal, Line, Ran, is_two_tier, drift,
  drifts, stats_lines, stats_of, line_of, unless_failed, oldest, newest, run_cache_stats,
  resolve_db_path,
}

abbrev pub is_drift : Line → Bool
is_drift (drift memory actual) = true
is_drift _ = false

abbrev pub HasNoWarning : Ran → Type 0
HasNoWarning r = All (λ l. is_drift l ≡ false) r.out

no_drift : (n : ℕ) → drifts n n ≡ false
unfolding drifts
no_drift n = ground arith

opened_count :
    (o : Opening) (path : String) (rows : List Row) (s : Sqlite)
    → open_sqlite o path 0 0 rows ≡ ok s
    → s.count ≡ length s.rows
unfolding open_sqlite open_count
opened_count o path rows s h =
    let (usable, _, h1) = >>=-eq-ok (>>-eq-ok (open_failure o (or_default path)) h) in
    let (sound, _, h2) = >>=-eq-ok h1 in
    let (created, h3) = reject->>-eq-ok _ h2 in
    let (counted, h4) = reject->>-eq-ok _ h3 in subst (λ u. u.count ≡ length u.rows) (ok_eq h4) refl

lines_of-no_drift :
    (l : ℕ → Line)
    → ((n : ℕ) → is_drift (l n) ≡ false)
    → (o : Option ℕ) → All (λ l. is_drift l ≡ false) (line_of l o)
lines_of-no_drift l h none = tt
lines_of-no_drift l h (some n) = (h n, tt)

stats_lines-no_drift :
    (t : Terminal) (rows : List Row)
    → All (λ l. is_drift l ≡ false) (stats_lines t (length rows) rows)
stats_lines-no_drift t rows =
    let quiet = λ (l : Line). is_drift l ≡ false in
    let tail =
      All-append quiet (line_of oldest_access (unless_failed t.range_fails (oldest rows))) _
        (lines_of-no_drift oldest_access (λ n. refl) _)
        (All-append quiet (line_of newest_access (unless_failed t.range_fails (newest rows))) _
          (lines_of-no_drift newest_access (λ n. refl) _)
          (All-append quiet (line_of file_bytes t.file_size) (journal_mode t.journal_mode ∷ [])
            (lines_of-no_drift file_bytes (λ n. refl) _) (refl, tt))) in
    rw (no_drift (length rows)) (refl, (refl, (refl, (refl, tail))))

stats_of-no_warning :
    (t : Terminal) (path : String) (rows : List Row)
    → ((rs : List Row) → t.meanwhile rs ≡ rs)
    → (opened : Result OpenError Sqlite) → open_sqlite t.opening path 0 0 rows ≡ opened
    → HasNoWarning (stats_of t rows opened)
stats_of-no_warning t path rows alone (err e) h = (refl, tt)
stats_of-no_warning t path rows alone (ok s) h =
    branches HasNoWarning t.count_fails _ _ (refl, tt)
      (rw (alone s.rows)
        (rw (opened_count t.opening path rows s h) (stats_lines-no_drift t s.rows)))

-- The subcommand stats never warns of a counter that has drifted, unless another process writes to the
-- table while it runs: the counter that it compares is its own, read from the same rows.
pub stats_never_warn :
    {Float : Type 0} (t : Terminal) (c : Config Float) (rows : List Row)
    → ((rs : List Row) → t.meanwhile rs ≡ rs)
    → HasNoWarning (run_cache_stats t c rows)
unfolding run_cache_stats
stats_never_warn t c rows alone =
    branches HasNoWarning (not (is_two_tier c)) _ _ (refl, tt)
      (stats_of-no_warning t (resolve_db_path c) rows alone _ refl)
