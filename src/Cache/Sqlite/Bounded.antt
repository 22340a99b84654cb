-- ===== src/Cache/Sqlite/Bounded.antt =====
-- The capacity of the SQLite cache.
use blind_llm_eyes.Base.{
  branches, suc, ◌-◌, ◌*◌, ◌/◌, ◌≤◌, ◌<◌, ◌≡◌, refl, sym, ◌∙◌, ap, String, ltb, false, length,
  arith, Bool-cases, Option-cases, inl, inr,
}
use blind_llm_eyes.Cache.Sqlite.{
  Sqlite, Moment, select, evict_ttl, deleted, batch, shrink, expire, evict_if_needed, new_row, put,
}
use blind_llm_eyes.Cache.Sqlite.Counts.{
  IsCounted, update-AreDistinct, insert-AreDistinct, evict_ttl-AreDistinct,
}
use blind_llm_eyes.Cache.Sqlite.Counted.{shrink-IsCounted}
use blind_llm_eyes.Cache.Sqlite.Evicted.{length-evict_lru}

-- No more rows than the capacity, which is one.
abbrev pub IsBounded : Sqlite → Type 0
IsBounded s = (0 < s.max_entries) × (length s.rows ≤ s.max_entries)

shrink-IsBounded :
    (m : Moment) (s : Sqlite)
    → IsCounted s
    → 0 < s.max_entries
    → m.evict_lru_fails ≡ false
    → IsBounded (shrink m s)
unfolding shrink
shrink-IsBounded m s c h f = elim (Bool-cases (ltb s.max_entries s.count)) [
  | inl e ↦ ground (arith, c.0, length-evict_lru (batch s) s.rows c.1)
  | inr e ↦ ground (arith, c.0)
]

expire-IsBounded : (m : Moment) (s : Sqlite) → IsCounted s → IsBounded s → IsBounded (expire m s)
unfolding expire
expire-IsBounded m s c b =
    let rows = evict_ttl (m.later - s.ttl) s.rows in
    let fewer = (evict_ttl-AreDistinct (m.later - s.ttl) s.rows c.1).1 in
    branches IsBounded (ltb 0 s.ttl) _ s
      (branches IsBounded m.evict_ttl_fails s (deleted s rows) b (b.0, omega (arith, b.1, fewer))) b

evict_if_needed-IsBounded :
    (m : Moment) (s : Sqlite)
    → IsCounted s
    → 0 < s.max_entries
    → s.evicting ≡ false
    → m.evict_lru_fails ≡ false
    → IsBounded (evict_if_needed m s)
unfolding evict_if_needed
evict_if_needed-IsBounded m s c h e f =
    ground
      (arith, expire-IsBounded m (shrink m s) (shrink-IsCounted m s c) (shrink-IsBounded m s c h f))

-- If the counter is the number of the rows and no two of them have one hash, a Put keeps the table
-- within its capacity if no other goroutine is evicting and the statement that evicts does not
-- fail, whatever else fails.
pub put-IsBounded :
    (m : Moment) (key value : String) (s : Sqlite)
    → IsCounted s
    → IsBounded s
    → s.evicting ≡ false
    → m.evict_lru_fails ≡ false
    → IsBounded (put m key value s)
unfolding put
put-IsBounded m key value s c b e f =
    branches IsBounded m.insert_fails s _ b (elim (Option-cases (select key s.rows)) [
      | inl q ↦
          let (d, l) = insert-AreDistinct (new_row m key value) s.rows q c.1 in
          rw q (evict_if_needed-IsBounded m _ (ap suc c.0 ∙ sym l, d) b.0 e f)
      | inr (r, q) ↦
          let (d, l) =
            update-AreDistinct (λ q. new_row m q.hash value) key s.rows (λ q. refl) c.1 in
          rw q (
            branches IsBounded m.update_fails s _ b
              (evict_if_needed-IsBounded m _ (c.0 ∙ sym l, d) b.0 e f))
    ])

-- An eviction for the capacity leaves nine tenths of it, rounded down.
pub length-shrink :
    (m : Moment) (s : Sqlite)
    → IsCounted s
    → 0 < s.max_entries
    → s.max_entries < s.count
    → m.evict_lru_fails ≡ false
    → length (shrink m s).rows ≡ s.max_entries * 9 / 10
unfolding shrink
length-shrink m s c h over f = ground (arith, c.0, length-evict_lru (batch s) s.rows c.1)
