-- ===== src/Tests/Caches.antt =====
-- The persistent cache and the two tiers at concrete inputs.
use blind_llm_eyes.Base.{ℕ, ◌<◌, ◌≡◌, refl, String, true, false, some, List, [], ◌∷◌, arith}
use blind_llm_eyes.Config.Providers.{not_empty}
use blind_llm_eyes.Cache.Lru
use blind_llm_eyes.Cache.Lru.{Lru, new_lru, find, unlink, remove_oldest, evict}
use blind_llm_eyes.Cache.Sqlite
use blind_llm_eyes.Cache.Sqlite.{Row, Sqlite, Moment, open_count, select, update, insert}
use blind_llm_eyes.Cache.Sqlite.Counts.{AreDistinct, IsCounted}
use blind_llm_eyes.Cache.Sqlite.Counted.{Call, get_call, put_call, run_calls}
use blind_llm_eyes.Base.Results.{ok, ◌>>=◌, ◌>>◌, reject}
use blind_llm_eyes.Cache.Sqlite.Open.{
  Rebuild, Opening, open_sqlite, open_failure, rebuild_db, apply_corruption_recovery,
}
use blind_llm_eyes.Cache.Sqlite.Open.Recovered.{KeptOrGone, open_sqlite-IsCounted}
use blind_llm_eyes.Cache.Sqlite.Bounded.{IsBounded, put-IsBounded}
use blind_llm_eyes.Cache.TwoTier.{fnv, TwoTier, new_two_tier, second_look}

abbrev pub row : String → ℕ → Row
row hash used = record {
  hash = hash;
  description = "a cat";
  size_bytes = 5;
  created_at = 1;
  last_accessed = used;
}

-- Full, with a counter that is still to be read.
abbrev pub full : Sqlite
full = record {
  rows = row "a" 7 ∷ (row "b" 3 ∷ []);
  max_entries = 2;
  ttl = 0;
  count = 2;
  evicting = false;
}

abbrev pub calm : Moment
calm = record {
  now = 9;
  later = 9;
  get_fails = false;
  touch_fails = false;
  insert_fails = false;
  update_fails = false;
  evict_lru_fails = false;
  evict_ttl_fails = false;
}

pub distinct : AreDistinct full.rows
distinct = ((not_empty "a" "b" refl, tt), (tt, tt))

abbrev calls : List Call
calls =
    put_call calm "c" "a dog"
    ∷ (get_call (record calm { touch_fails = true }) "c"
        ∷ (put_call (record calm { evict_lru_fails = true }) "d" "a bird" ∷ []))

-- A file that is not a database: the first rebuild takes it away.
abbrev rebuild : Rebuild
rebuild = record { remove_fails = false; reopen_fails = false; pragma_fails = false }

abbrev garbage : Opening
garbage = record {
  dir = λ path. ".";
  create_dir_fails = λ d. true;
  open_fails = λ path. false;
  pragma_fails = true;
  first_rebuild = rebuild;
  integrity_check = some "ok";
  second_rebuild = rebuild;
  create_fails = false;
  count_fails = false;
}

abbrev empty_sqlite : Sqlite
empty_sqlite = record { rows = []; max_entries = 2; ttl = 0; count = 0; evicting = false }

opens_empty : open_sqlite garbage "" 2 0 full.rows ≡ ok empty_sqlite
unfolding open_sqlite open_failure rebuild_db apply_corruption_recovery open_count ◌>>=◌ ◌>>◌ reject
opens_empty = refl

open_sqlite-IsCounted_example : KeptOrGone full.rows [] × IsCounted (run_calls calls empty_sqlite)
open_sqlite-IsCounted_example =
    open_sqlite-IsCounted garbage "" 2 0 full.rows empty_sqlite calls opens_empty distinct

put-IsBounded_example : IsBounded (Sqlite.put calm "c" "a dog" full)
put-IsBounded_example =
    put-IsBounded calm "c" "a dog" full (refl, distinct) (omega arith, omega arith) refl refl

-- The hot layer is empty.
abbrev cold_start : TwoTier
cold_start = new_two_tier 2 full

found_cold : (second_look (λ n. calm) "b" cold_start).0 ≡ some "a cat"
unfolding second_look Lru.get find Sqlite.get select new_lru
found_cold = refl

room : 0 < cold_start.hot.cap
unfolding new_lru
room = omega arith

-- The known hashes of the empty text, of "a" and of "foobar".
fnv_vectors :
    (fnv [] 2166136261 ≡ 2166136261)
    × (fnv (97 ∷ []) 2166136261 ≡ 3826002220)
    × (fnv (102 ∷ (111 ∷ (111 ∷ (98 ∷ (97 ∷ (114 ∷ [])))))) 2166136261 ≡ 3214735720)
unfolding fnv
fnv_vectors = (refl, refl, refl)
