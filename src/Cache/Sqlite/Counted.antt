-- ===== src/Cache/Sqlite/Counted.antt =====
-- The methods keep the counter.
use blind_llm_eyes.Base.{
  branches, suc, ◌-◌, ◌≡◌, refl, sym, ◌∙◌, ap, String, ltb, ◌&&◌, Option, List, [], ◌∷◌,
  Option-cases, inl, inr,
}
use blind_llm_eyes.Cache.Lru.{Lookup}
use blind_llm_eyes.Cache.Sqlite.{
  Row, Sqlite, Moment, select, update, sort_by_access, limit, delete_in, evict_lru, evict_ttl,
  open_count, deleted, batch, shrink, expire, evict_if_needed, get, new_row, put,
}
use blind_llm_eyes.Cache.Sqlite.Counts.{
  AreDistinct, IsCounted, update-AreDistinct, insert-AreDistinct, delete_in-AreDistinct,
  evict_ttl-AreDistinct, deleted-IsCounted,
}

pub shrink-IsCounted : (m : Moment) (s : Sqlite) → IsCounted s → IsCounted (shrink m s)
unfolding shrink evict_lru
shrink-IsCounted m s c =
    let victims = limit (batch s) (sort_by_access s.rows) in
    branches IsCounted (ltb 0 s.max_entries && ltb s.max_entries s.count) _ s
      (branches IsCounted m.evict_lru_fails s (deleted s (delete_in victims s.rows)) c
        (deleted-IsCounted s _ c (delete_in-AreDistinct victims s.rows c.1)))
      c

expire-IsCounted : (m : Moment) (s : Sqlite) → IsCounted s → IsCounted (expire m s)
unfolding expire
expire-IsCounted m s c =
    let rows = evict_ttl (m.later - s.ttl) s.rows in
    branches IsCounted (ltb 0 s.ttl) _ s
      (branches IsCounted m.evict_ttl_fails s (deleted s rows) c
        (deleted-IsCounted s rows c (evict_ttl-AreDistinct (m.later - s.ttl) s.rows c.1)))
      c

evict_if_needed-IsCounted :
    (m : Moment) (s : Sqlite) → IsCounted s → IsCounted (evict_if_needed m s)
unfolding evict_if_needed
evict_if_needed-IsCounted m s c =
    branches IsCounted s.evicting s (expire m (shrink m s)) c
      (expire-IsCounted m (shrink m s) (shrink-IsCounted m s c))

updated-IsCounted :
    (f : Row → Row) (key : String) (s : Sqlite)
    → ((r : Row) → (f r).hash ≡ r.hash)
    → IsCounted s
    → IsCounted (record s { rows = update f key s.rows })
updated-IsCounted f key s same c =
    let (d, l) = update-AreDistinct f key s.rows same c.1 in (c.0 ∙ sym l, d)

get-IsCounted : (m : Moment) (key : String) (s : Sqlite) → IsCounted s → IsCounted (get m key s).2
unfolding get
get-IsCounted m key s c =
    branches {A = Option String × Option Lookup × Sqlite} (λ r. IsCounted r.2) m.get_fails _ _ c
      (elim (Option-cases (select key s.rows)) [
        | inl e ↦ rw e c
        | inr (r, e) ↦ rw e (
            branches IsCounted m.touch_fails s _ c
              (updated-IsCounted (λ q. record q { last_accessed = m.now }) key s (λ q. refl) c))
      ])

put-IsCounted :
    (m : Moment) (key value : String) (s : Sqlite) → IsCounted s → IsCounted (put m key value s)
unfolding put
put-IsCounted m key value s c =
    branches IsCounted m.insert_fails s _ c (elim (Option-cases (select key s.rows)) [
      | inl e ↦
          let (d, l) = insert-AreDistinct (new_row m key value) s.rows e c.1 in
          rw e (evict_if_needed-IsCounted m _ (ap suc c.0 ∙ sym l, d))
      | inr (r, e) ↦ rw e (
          branches IsCounted m.update_fails s _ c (
            evict_if_needed-IsCounted m _
              (updated-IsCounted (λ q. new_row m q.hash value) key s (λ q. refl) c)))
    ])

-- A call of the cache, with what happens at it.
pub data Call : Type 0 where
  get_call : Moment → (key : String) → Call
  put_call : Moment → (key value : String) → Call

unfoldable pub run_call : Call → Sqlite → Sqlite
run_call (get_call m key) s = (get m key s).2
run_call (put_call m key value) s = put m key value s

unfoldable pub run_calls : List Call → Sqlite → Sqlite
run_calls [] s = s
run_calls (c ∷ cs) s = run_calls cs (run_call c s)

calls_keep : (cs : List Call) (s : Sqlite) → IsCounted s → IsCounted (run_calls cs s)
unfolding run_calls run_call
calls_keep [] s c = c
calls_keep (get_call m key ∷ cs) s c = calls_keep cs _ (get-IsCounted m key s c)
calls_keep (put_call m key value ∷ cs) s c = calls_keep cs _ (put-IsCounted m key value s c)

-- From the opening of the database on, and whichever statements fail: the counter is the number of the
-- rows, and no two rows have one hash.
pub run_calls-IsCounted :
    (cs : List Call) (s : Sqlite) → AreDistinct s.rows → IsCounted (run_calls cs (open_count s))
unfolding open_count
run_calls-IsCounted cs s d = calls_keep cs (open_count s) (refl, d)
