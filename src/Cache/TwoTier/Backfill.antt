-- ===== src/Cache/TwoTier/Backfill.antt =====
-- What the hot layer gets from the cold one.
use blind_llm_eyes.Base.{Option-cases, inl, inr, ℕ, suc, ◌<◌, ◌≡◌, String, some, arith}
use blind_llm_eyes.Base.Caches.{CacheOps}
use blind_llm_eyes.Cache.Lru
use blind_llm_eyes.Cache.Lru.Valid.{
  get-get, get-put as lru_get-put, cap-get as lru_cap-get, cap-put as lru_cap-put,
}
use blind_llm_eyes.Cache.Sqlite
use blind_llm_eyes.Cache.Sqlite.{Moment}
use blind_llm_eyes.Cache.TwoTier.{query_cold, TwoTier, first_look, second_look, get, put}

module _ (world : ℕ → Moment) where
  -- What was just written is found, in the hot layer and with no call of the cold one, whatever the cold
  -- layer did.
  pub get-put :
      (key value : String) (t : TwoTier)
      → 0 < t.hot.cap
      → ((get world key (put world key value t)).0 ≡ some value)
        × ((get world key (put world key value t)).1.calls ≡ suc t.calls)
  unfolding get put first_look
  get-put key value t h = ground (arith, lru_get-put key value t.hot h)

  queried_fills :
      (key v : String) (t : TwoTier)
      → 0 < t.hot.cap
      → (query_cold world key t).0 ≡ some v
      → (Lru.get key (query_cold world key t).1.hot).0 ≡ some v
  queried_fills key v t h e = elim (Option-cases (Sqlite.get (world t.calls) key t.cold).0) [
    | inl q ↦ absurd (ground (arith, q))
    | inr (d, q) ↦ ground (arith, q, lru_get-put key d t.hot h)
  ]

  second_look_fills :
      (key v : String) (t : TwoTier)
      → 0 < t.hot.cap
      → (second_look world key t).0 ≡ some v
      → (Lru.get key (second_look world key t).1.hot).0 ≡ some v
  unfolding second_look
  second_look_fills key v t h e = elim (Option-cases (Lru.get key t.hot).0) [
    | inl q ↦ ground (arith, q, queried_fills key v t h)
    | inr (d, q) ↦ ground (arith, q, get-get key d t.hot)
  ]

  found_hot :
      (key v : String) (t : TwoTier)
      → (Lru.get key t.hot).0 ≡ some v
      → ((second_look world key t).0 ≡ some v)
        × ((second_look world key t).1.calls ≡ t.calls)
        × ((get world key t).0 ≡ some v)
        × ((get world key t).1.calls ≡ t.calls)
  unfolding second_look get first_look
  found_hot key v t h = ground (arith, h)

  -- If a goroutine that holds the lock of the shard finds a description, then the next one that was
  -- waiting for the lock with the same key, and any later Get of the key, finds the same description in
  -- the hot layer, without a call of the cold one.
  pub second_look_fills_once :
      (key v : String) (t : TwoTier)
      → 0 < t.hot.cap
      → (second_look world key t).0 ≡ some v
      → let after = (second_look world key t).1 in
        ((second_look world key after).0 ≡ some v)
        × ((second_look world key after).1.calls ≡ after.calls)
        × ((get world key after).0 ≡ some v)
        × ((get world key after).1.calls ≡ after.calls)
  second_look_fills_once key v t h e =
      found_hot key v (second_look world key t).1 (second_look_fills key v t h e)

  cap-query_cold : (key : String) (t : TwoTier) → (query_cold world key t).1.hot.cap ≡ t.hot.cap
  cap-query_cold key t = elim (Option-cases (Sqlite.get (world t.calls) key t.cold).0) [
    | inl e ↦ ground (arith, e)
    | inr (d, e) ↦ ground (arith, e, lru_cap-put key d t.hot)
  ]

  cap-second_look : (key : String) (t : TwoTier) → (second_look world key t).1.hot.cap ≡ t.hot.cap
  unfolding second_look
  cap-second_look key t = elim (Option-cases (Lru.get key t.hot).0) [
    | inl e ↦ ground (arith, e, cap-query_cold key t)
    | inr (d, e) ↦ ground (arith, e, lru_cap-get key t.hot)
  ]

  pub cap-get : (key : String) (t : TwoTier) → (get world key t).1.hot.cap ≡ t.hot.cap
  unfolding get first_look
  cap-get key t = elim (Option-cases (Lru.get key t.hot).0) [
    | inl e ↦ ground (arith, e, lru_cap-get key t.hot, cap-second_look key (first_look key t).1)
    | inr (d, e) ↦ ground (arith, e, lru_cap-get key t.hot)
  ]

  pub cap-put : (key value : String) (t : TwoTier) → (put world key value t).hot.cap ≡ t.hot.cap
  unfolding put
  cap-put key value t = lru_cap-put key value t.hot

  -- A two-tier cache whose hot layer has room for an entry is a cache as the handler takes it.
  abbrev pub two_tier_cache : CacheOps
  two_tier_cache = record {
    Cache = (t : TwoTier) × (0 < t.hot.cap);
    get = λ key t.
        ((get world key t.0).0, ((get world key t.0).1, omega (arith, t.1, cap-get key t.0)));
    put = λ key value t. (put world key value t.0, omega (arith, t.1, cap-put key value t.0));
    get-put = λ key value t. (get-put key value t.0 t.1).0;
  }
