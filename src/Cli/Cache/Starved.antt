-- ===== src/Cli/Cache/Starved.antt =====
-- cli/cache.go beside cache/sqlite.go: what becomes of the cache of a process when the subcommand clear
-- deletes the rows of its table.
use blind_llm_eyes.Base.{
  ◌∙◌, ℕ, zero, suc, ◌<◌, String, ◌≡◌, refl, ap, inl, inr, Bool, true, false, Option, none, List,
  [], ◌∷◌, arith, eq_iff, ltb, All, branches, split_if,
}
use blind_llm_eyes.Cache.Sqlite.{
  Row, Sqlite, Moment, select, insert, insert_by_access, sort_by_access, limit, has_hash, delete_in,
  evict_lru, evict_ttl, batch, shrink, expire, evict_if_needed, new_row, get, put,
}
use blind_llm_eyes.Cache.Lru.{Lookup}
use blind_llm_eyes.Cache.Sqlite.Counted.{Call, get_call, put_call, run_call, run_calls}
use blind_llm_eyes.Config.{Config}
use blind_llm_eyes.Cli.Cache.Cleared.{clear_all_or_nothing}
use blind_llm_eyes.Cli.Cache.{Terminal, run_cache_clear}

-- The statement that evicts the oldest rows does not fail.
abbrev pub Evicts : Call → Type 0
Evicts (get_call m key) = Unit
Evicts (put_call m key value) = m.evict_lru_fails ≡ false

abbrev cleared : Sqlite → Sqlite
cleared s = record s { rows = [] }

abbrev one_too_many : Row → Sqlite → Sqlite
one_too_many r s = record s { rows = r ∷ []; count = suc s.count }

one_evicted : (n : ℕ) (r : Row) → 0 < n → evict_lru n (r ∷ []) ≡ []
unfolding evict_lru sort_by_access insert_by_access limit delete_in has_hash
one_evicted zero r h = absurd (omega (arith, h))
one_evicted (suc n) r h = rw ((eq_iff r.hash r.hash).1 refl) refl

shrink-one_too_many :
    (m : Moment) (r : Row) (s : Sqlite)
    → 0 < s.max_entries
    → s.count ≡ s.max_entries
    → m.evict_lru_fails ≡ false
    → shrink m (one_too_many r s) ≡ cleared s
unfolding shrink
shrink-one_too_many m r s some_room full f =
    let some_left : 0 < batch (one_too_many r s) = ground arith in
    let e : ltb 0 s.max_entries ≡ true = ground arith in
    let o : ltb s.max_entries (suc s.count) ≡ true = ground (arith, full) in
    rw e (
      rw o (
        rw f (
          rw (one_evicted (batch (one_too_many r s)) r some_left)
            (ap (λ n. record (cleared s) { count = n }) (omega arith)))))

expire-cleared : (m : Moment) (s : Sqlite) → expire m (cleared s) ≡ cleared s
unfolding expire evict_ttl
expire-cleared m s =
    branches (λ t. t ≡ cleared s) (ltb 0 s.ttl) _ (cleared s)
      (branches (λ t. t ≡ cleared s) m.evict_ttl_fails (cleared s) _ refl
        (ap (λ n. record (cleared s) { count = n }) (omega arith)))
      refl

evict_if_needed-one_too_many :
    (m : Moment) (r : Row) (s : Sqlite)
    → 0 < s.max_entries
    → s.count ≡ s.max_entries
    → s.evicting ≡ false
    → m.evict_lru_fails ≡ false
    → evict_if_needed m (one_too_many r s) ≡ cleared s
unfolding evict_if_needed
evict_if_needed-one_too_many m r s some_room full free f =
    split_if (λ t. t ≡ cleared s) s.evicting _ _ (λ e. absurd (ground (arith, free, e)))
      (λ e. ap (expire m) (shrink-one_too_many m r s some_room full f) ∙ expire-cleared m s)

put-cleared :
    (m : Moment) (key value : String) (s : Sqlite)
    → 0 < s.max_entries
    → s.count ≡ s.max_entries
    → s.evicting ≡ false
    → m.evict_lru_fails ≡ false
    → put m key value (cleared s) ≡ cleared s
unfolding put select insert
put-cleared m key value s some_room full free f =
    branches (λ t. t ≡ cleared s) m.insert_fails (cleared s) _ refl
      (evict_if_needed-one_too_many m (new_row m key value) s some_room full free f)

get-cleared :
    (m : Moment) (key : String) (s : Sqlite)
    → ((get m key (cleared s)).0 ≡ none) × ((get m key (cleared s)).2 ≡ cleared s)
unfolding get select
get-cleared m key s =
    branches {A = Option String × Option Lookup × Sqlite} (λ r. (r.0 ≡ none) × (r.2 ≡ cleared s))
      m.get_fails _ _ (refl, refl) (refl, refl)

calls-cleared :
    (cs : List Call) (s : Sqlite)
    → 0 < s.max_entries
    → s.count ≡ s.max_entries
    → s.evicting ≡ false
    → All Evicts cs
    → run_calls cs (cleared s) ≡ cleared s
unfolding run_calls run_call
calls-cleared [] s some_room full free a = refl
calls-cleared (get_call m key ∷ cs) s some_room full free a =
    rw (get-cleared m key s).1 (calls-cleared cs s some_room full free a.1)
calls-cleared (put_call m key value ∷ cs) s some_room full free a =
    rw (put-cleared m key value s some_room full free a.0)
      (calls-cleared cs s some_room full free a.1)

-- When the subcommand clear ends with 0 beside a process whose counter says that its cache is full, that
-- process keeps nothing any more: whatever it puts into the cache, the table is empty behind it, and each
-- lookup finds nothing, as long as its evictions do not fail.
pub clear_starves :
    {Float : Type 0} (t : Terminal) (assume_yes : Bool) (c : Config Float) (s : Sqlite)
    (cs : List Call)
    → (run_cache_clear t assume_yes c s.rows).code ≡ 0
    → 0 < s.max_entries
    → s.count ≡ s.max_entries
    → s.evicting ≡ false
    → All Evicts cs
    → let after = run_calls cs (record s { rows = (run_cache_clear t assume_yes c s.rows).rows }) in
      (after.rows ≡ []) × ((m : Moment) (key : String) → (get m key after).0 ≡ none)
clear_starves t assume_yes c s cs done some_room full free a =
    elim (clear_all_or_nothing t assume_yes c s.rows) [
      | inr (code, q) ↦ absurd (code done)
      | inl (q, gone, two, asked) ↦
          rw gone
            (rw (calls-cleared cs s some_room full free a) (refl, λ m key. (get-cleared m key s).0))
    ]
