-- ===== src/Tests/Inspection.antt =====
-- The subcommand cache at a table of two rows.
use mathlib.Core.List.{Permᴰ}
use blind_llm_eyes.Base.{
  String, ◌≡◌, refl, true, false, none, some, List, [], ◌∷◌, arith, str_eq, pos,
}
use blind_llm_eyes.Cache.Sqlite.{Row, get, sort_by_access, insert_by_access, limit}
use blind_llm_eyes.Cache.Sqlite.Counted.{Call, get_call, put_call, run_calls}
use blind_llm_eyes.Cache.Sqlite
use blind_llm_eyes.Cli.Cache.{
  reverse_onto, Terminal, entry_lines, ran, run_cache_clear, run_cache_list, newest_first,
}
use blind_llm_eyes.Cli.Cache.Listed.{IsNewestFirst, Cut, list_newest}
use blind_llm_eyes.Cli.Cache.Starved.{clear_starves}
use blind_llm_eyes.Tests.Caches.{row, full, calm}
use blind_llm_eyes.Tests.Doctor.{corrupt, two_tiers}

abbrev terminal : Terminal
terminal = record {
  exists = true;
  opening = record corrupt { integrity_check = some "ok" };
  meanwhile = λ rows. rows;
  count_fails = false;
  sum_fails = false;
  range_fails = false;
  journal_mode = "wal";
  file_size = some 4096;
  open_fails = false;
  query_fails = false;
  scan_fails = λ r. false;
  delete_fails = false;
  answer = "n";
  equal_fold = str_eq;
}

clears : (run_cache_clear terminal true two_tiers full.rows).code ≡ 0
unfolding run_cache_clear
clears = refl

abbrev later_calls : List Call
later_calls = put_call calm "c" "a dog" ∷ (get_call calm "c" ∷ (put_call calm "d" "a bird" ∷ []))

clear_starves_example :
    let after =
      run_calls later_calls
        (record full { rows = (run_cache_clear terminal true two_tiers full.rows).rows }) in
    (after.rows ≡ []) × ((m : Sqlite.Moment) (key : String) → (get m key after).0 ≡ none)
clear_starves_example =
    clear_starves terminal true two_tiers full later_calls clears (omega arith) refl refl
      (refl, (tt, (refl, tt)))

list_newest_example :
    (whole listed rest : List Row) × (run_cache_list terminal (pos 1) two_tiers full.rows
      ≡ ran 0 (entry_lines terminal.scan_fails listed) full.rows)
    × Permᴰ whole full.rows
    × IsNewestFirst whole
    × Cut 1 whole listed rest
list_newest_example = list_newest terminal 1 two_tiers full.rows refl refl refl

shows_latest :
    run_cache_list terminal (pos 1) two_tiers full.rows
    ≡ ran 0 (entry_lines terminal.scan_fails (row "a" 7 ∷ [])) full.rows
unfolding run_cache_list newest_first reverse_onto sort_by_access insert_by_access limit
shows_latest = refl
