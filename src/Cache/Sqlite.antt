-- ===== src/Cache/Sqlite.antt =====
-- cache/sqlite.go: the table of the persistent cache, its statements and the counter of its rows. The
-- rows stand in the order of their rowid, in which the index has rows that were used at one time. A
-- statement that fails changes nothing. Every method runs from its start to its end here, but for the
-- flag evicting, which another goroutine may have set.
pub mod Counts
pub mod Counted
pub mod Evicted
pub mod Bounded
pub mod Open
use Prim.Native.String.{len}
use blind_llm_eyes.Base.{
  ℕ, zero, suc, ◌-◌, ◌*◌, ◌/◌, String, str_eq, ltb, Bool, true, false, ◌&&◌, if◌then◌else◌, Option,
  none, some, List, [], ◌∷◌, length,
}
use blind_llm_eyes.Cache.Lru.{Lookup, hit, miss}

pub record Row : Type 0 where
  pub hash : String
  pub description : String
  pub size_bytes : ℕ
  pub created_at : ℕ
  pub last_accessed : ℕ

-- A capacity or a TTL of 0 and below is none, and 0 here. The TTL is in milliseconds. The rows hold
-- what the database does, the counter what the process counts.
pub record Sqlite : Type 0 where
  pub rows : List Row
  pub max_entries : ℕ
  pub ttl : ℕ
  pub count : ℕ
  pub evicting : Bool

-- nowMillis at the statement and at the eviction behind it, and which statements fail.
pub record Moment : Type 0 where
  pub now : ℕ
  pub later : ℕ
  pub get_fails : Bool
  pub touch_fails : Bool
  pub insert_fails : Bool
  pub update_fails : Bool
  pub evict_lru_fails : Bool
  pub evict_ttl_fails : Bool

-- SELECT … WHERE hash = ?
unfoldable pub select : String → List Row → Option Row
select key [] = none
select key (r ∷ rs) = if str_eq r.hash key then some r else select key rs

-- UPDATE … WHERE hash = ?
unfoldable pub update : (Row → Row) → String → List Row → List Row
update f key [] = []
update f key (r ∷ rs) = (if str_eq r.hash key then f r else r) ∷ update f key rs

-- INSERT OR IGNORE: a new row has the largest rowid.
unfoldable pub insert : Row → List Row → List Row
insert r [] = r ∷ []
insert r (q ∷ qs) = q ∷ insert r qs

-- ORDER BY last_accessed ASC
unfoldable pub insert_by_access : Row → List Row → List Row
insert_by_access r [] = r ∷ []
insert_by_access r (q ∷ qs) =
    if ltb q.last_accessed r.last_accessed then q ∷ insert_by_access r qs else r ∷ q ∷ qs

unfoldable pub sort_by_access : List Row → List Row
sort_by_access [] = []
sort_by_access (r ∷ rs) = insert_by_access r (sort_by_access rs)

-- LIMIT ?
unfoldable pub limit : ℕ → List Row → List Row
limit zero rs = []
limit (suc n) [] = []
limit (suc n) (r ∷ rs) = r ∷ limit n rs

unfoldable pub has_hash : String → List Row → Bool
has_hash key [] = false
has_hash key (r ∷ rs) = if str_eq r.hash key then true else has_hash key rs

-- DELETE … WHERE hash IN …
unfoldable pub delete_in : List Row → List Row → List Row
delete_in victims [] = []
delete_in victims (r ∷ rs) =
    if has_hash r.hash victims then delete_in victims rs else r ∷ delete_in victims rs

-- sqlEvictLRU
unfoldable pub evict_lru : ℕ → List Row → List Row
evict_lru n rs = delete_in (limit n (sort_by_access rs)) rs

-- sqlEvictTTL: DELETE … WHERE created_at < ?
unfoldable pub evict_ttl : ℕ → List Row → List Row
evict_ttl cutoff [] = []
evict_ttl cutoff (r ∷ rs) =
    if ltb r.created_at cutoff then evict_ttl cutoff rs else r ∷ evict_ttl cutoff rs

-- initCount
unfoldable pub open_count : Sqlite → Sqlite
open_count s = record s { count = length s.rows }

-- The counter loses the rows that the statement has deleted.
abbrev pub deleted : Sqlite → List Row → Sqlite
deleted s rows = record s { rows = rows; count = s.count - (length s.rows - length rows) }

-- The batch that leaves nine tenths of the capacity.
abbrev pub batch : Sqlite → ℕ
batch s = let del = s.count - s.max_entries * 9 / 10 in if ltb del 1 then 1 else del

unfoldable pub shrink : Moment → Sqlite → Sqlite
shrink m s =
    if ltb 0 s.max_entries && ltb s.max_entries s.count
    then (if m.evict_lru_fails then s else deleted s (evict_lru (batch s) s.rows))
    else s

unfoldable pub expire : Moment → Sqlite → Sqlite
expire m s =
    if ltb 0 s.ttl
    then (if m.evict_ttl_fails then s else deleted s (evict_ttl (m.later - s.ttl) s.rows))
    else s

unfoldable pub evict_if_needed : Moment → Sqlite → Sqlite
evict_if_needed m s = if s.evicting then s else expire m (shrink m s)

unfoldable pub get : Moment → String → Sqlite → Option String × Option Lookup × Sqlite
get m key s = if m.get_fails then (none, none, s) else elim (select key s.rows) [
  | none ↦ (none, some miss, s)
  | some r ↦ (
    some r.description,
    some hit,
    (if m.touch_fails
        then s
        else record s { rows = update (λ q. record q { last_accessed = m.now }) key s.rows }),
  )
]

abbrev pub new_row : Moment → String → String → Row
new_row m key value = record {
  hash = key;
  description = value;
  size_bytes = len value;
  created_at = m.now;
  last_accessed = m.now;
}

-- INSERT OR IGNORE has affected no row, and UPDATE follows.
abbrev pub overwrite : Moment → String → String → Sqlite → Sqlite
overwrite m key value s =
    if m.update_fails
    then s
    else evict_if_needed m (record s { rows = update (λ q. new_row m q.hash value) key s.rows })

unfoldable pub put : Moment → String → String → Sqlite → Sqlite
put m key value s = if m.insert_fails then s else elim (select key s.rows) [
  | some r ↦ overwrite m key value s
  | none ↦
      evict_if_needed m
        (record s { rows = insert (new_row m key value) s.rows; count = suc s.count })
]
