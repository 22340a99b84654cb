-- ===== src/Cache/TwoTier.antt =====
-- cache/twotier.go: the LRU in front of the SQLite cache. `world` tells what happens at each call of
-- the cold layer. Get looks at the hot layer and, behind a miss, takes the lock of the shard of its key
-- and goes on in one piece; between the two parts other goroutines may run.
pub mod Backfill
use Prim.Native.Nat.{bit_xor, ◌^◌}
use blind_llm_eyes.Base.{
  arith, ◌<◌, ◌*◌, ◌%◌, ℕ, suc, String, Option, none, some, List, [], ◌∷◌, ◌++◌,
}
use blind_llm_eyes.Cache.Lru
use blind_llm_eyes.Cache.Lru.{Lru, Lookup, hit, miss, new_lru}
use blind_llm_eyes.Cache.Sqlite
use blind_llm_eyes.Cache.Sqlite.{Sqlite, Moment}

-- shard: FNV-1a over the bytes of the key, in 32 bits, and the index of the lock.
unfoldable pub fnv : List ℕ → ℕ → ℕ
fnv [] h = h
fnv (b ∷ bs) h = fnv bs (bit_xor h b * 16777619 % 2 ^ 32)

unfoldable pub shard : List ℕ → ℕ
shard key = fnv key 2166136261 % 16

-- The index is within the array of the locks.
shard_bound : (key : List ℕ) → shard key < 16
unfolding shard
shard_bound key = omega arith

pub data Tier : Type 0 where
  hot_tier cold_tier : Tier

-- The two layers, the calls of the cold layer so far, and what the recorders were told.
pub record TwoTier : Type 0 where
  pub hot : Lru
  pub cold : Sqlite
  pub calls : ℕ
  pub lookups : List (Tier × Lookup)

abbrev pub new_two_tier : ℕ → Sqlite → TwoTier
new_two_tier lru_cap cold = record { hot = new_lru lru_cap; cold = cold; calls = 0; lookups = [] }

abbrev pub record_lookup : Tier → Lookup → TwoTier → TwoTier
record_lookup tier l t = record t { lookups = t.lookups ++ ((tier, l) ∷ []) }

-- The first look at the hot layer.
unfoldable pub first_look : String → TwoTier → Option String × TwoTier
first_look key t =
    let (found, l, hot) = Lru.get key t.hot in
    (found, record_lookup hot_tier l (record t { hot = hot }))

abbrev pub cold_lookup : Option Lookup → TwoTier → TwoTier
cold_lookup none t = t
cold_lookup (some l) t = record_lookup cold_tier l t

abbrev pub backfill : String → Option String → TwoTier → Option String × TwoTier
backfill key none t = (none, t)
backfill key (some desc) t = (some desc, record t { hot = Lru.put key desc t.hot })

module _ (world : ℕ → Moment) where
  abbrev pub query_cold : String → TwoTier → Option String × TwoTier
  query_cold key t =
      let (found, l, cold) = Sqlite.get (world t.calls) key t.cold in
      backfill key found (cold_lookup l (record t { cold = cold; calls = suc t.calls }))

  -- The part under the lock of the shard: the second look at the hot layer, which is not recorded, and
  -- else the cold layer.
  unfoldable pub second_look : String → TwoTier → Option String × TwoTier
  second_look key t =
      let (found, l, hot) = Lru.get key t.hot in
      elim found [ some desc ↦ (some desc, record t { hot = hot }) | none ↦ query_cold key t ]

  unfoldable pub get : String → TwoTier → Option String × TwoTier
  get key t =
      let (found, looked) = first_look key t in
      elim found [ some desc ↦ (some desc, looked) | none ↦ second_look key looked ]

  unfoldable pub put : String → String → TwoTier → TwoTier
  put key value t = record t {
    hot = Lru.put key value t.hot;
    cold = Sqlite.put (world t.calls) key value t.cold;
    calls = suc t.calls;
  }
