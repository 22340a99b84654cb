-- ===== src/Cache/Lru/Valid.antt =====
-- The LRU keeps its invariant, and a description that was put is found.
use blind_llm_eyes.Base.{
  ℕ, zero, suc, ◌≤◌, ◌<◌, ◌≡◌, refl, sym, subst, ◌∙◌, String, str_eq, eq_iff, ltb, true, some, List,
  [], ◌∷◌, length, arith, Bool-cases, Option-cases, inl, inr,
}
use blind_llm_eyes.Base.Caches.{CacheOps}
use blind_llm_eyes.Cache.Lru.{Entry, Lru, find, unlink, remove_oldest, evict, get, put}
use blind_llm_eyes.Cache.Lru.Bounds.{
  IsValid, count_key, length-evict, length-unlink, count-unlink, count-evict, count-find-none,
  found_key, count-unlink_same,
}

count_front :
    (x : Entry) (key k : String) (es : List Entry)
    → str_eq x.key key ≡ true
    → count_key key es ≡ 0
    → count_key k es ≤ 1
    → count_key k (x ∷ es) ≤ 1
unfolding count_key
count_front x key k es same absent once = elim (Bool-cases (str_eq x.key k)) [
  | inl e ↦
      let p = sym ((eq_iff x.key key).0 same) ∙ (eq_iff x.key k).0 e in
      let z : count_key k es ≡ 0 = subst (λ y. count_key y es ≡ 0) p absent in ground (arith, e, z)
  | inr e ↦ ground (arith, e)
]

moved-IsValid :
    (c : Lru) (key : String) (e x : Entry)
    → IsValid c
    → find key c.ll ≡ some e
    → str_eq x.key key ≡ true
    → IsValid (record c { ll = x ∷ unlink key c.ll })
moved-IsValid c key e x valid found same = (
  omega (arith, length-unlink key c.ll e found, valid.0),
  λ k.
      count_front x key k (unlink key c.ll) same
        (omega (arith, count-unlink_same key c.ll e found, valid.1 key))
        (omega (arith, count-unlink key k c.ll, valid.1 k)),
)

-- Get keeps the cache valid.
pub get-IsValid : (key : String) (c : Lru) → IsValid c → IsValid (get key c).2
unfolding get
get-IsValid key c valid = elim (Option-cases (find key c.ll)) [
  | inl e ↦ rw (get, e) valid
  | inr (x, e) ↦ rw (get, e) (moved-IsValid c key x x valid e (found_key key c.ll x e))
]

-- Put keeps the cache valid, of whatever capacity: it never holds more entries than that, and never
-- two for one key.
pub put-IsValid : (key value : String) (c : Lru) → IsValid c → IsValid (put key value c)
unfolding put
put-IsValid key value c valid =
    let entry : Entry = record { key = key; value = value } in
    let same : str_eq key key ≡ true = (eq_iff key key).1 refl in
    elim (Option-cases (find key c.ll)) [
      | inr (x, e) ↦ rw (put, e) (moved-IsValid c key x entry valid e same)
      | inl e ↦
          rw (put, e)
            (
              length-evict (suc (length c.ll)) c.cap (entry ∷ c.ll) (omega arith),
              λ k. omega (
                arith,
                count-evict k (suc (length c.ll)) c.cap (entry ∷ c.ll),
                count_front entry key k c.ll same (count-find-none key c.ll e) (valid.1 k),
              ),
            )
    ]

find-evict :
    (fuel cap : ℕ) (x : Entry) (es : List Entry) (key : String)
    → 0 < cap
    → str_eq x.key key ≡ true
    → find key (evict fuel cap (x ∷ es)) ≡ some x
unfolding evict find remove_oldest
find-evict zero cap x es key h same = rw same refl
find-evict (suc fuel) cap x [] key h same = ground (arith, same)
find-evict (suc fuel) cap x (y ∷ es) key h same =
    elim (Bool-cases (ltb cap (length (x ∷ (y ∷ es))))) [
      | inl over ↦ rw over (find-evict fuel cap x (remove_oldest (y ∷ es)) key h same)
      | inr fits ↦ rw (fits, same) refl
    ]

found_is_got :
    (key : String) (c : Lru) (e : Entry) → find key c.ll ≡ some e → (get key c).0 ≡ some e.value
unfolding get
found_is_got key c e h = rw (get, h) refl

put_is_found :
    (key value : String) (c : Lru)
    → 0 < c.cap
    → find key (put key value c).ll ≡ some (record { key = key; value = value })
unfolding put find
put_is_found key value c h =
    let entry : Entry = record { key = key; value = value } in
    let same : str_eq key key ≡ true = (eq_iff key key).1 refl in
    elim (Option-cases (find key c.ll)) [
      | inr (x, e) ↦ rw (put, e, same) refl
      | inl e ↦ rw (put, e) (find-evict (suc (length c.ll)) c.cap entry c.ll key h same)
    ]

-- What was put last is found, in a cache of a capacity that is not 0.
pub get-put :
    (key value : String) (c : Lru) → 0 < c.cap → (get key (put key value c)).0 ≡ some value
get-put key value c h =
    found_is_got key (put key value c) (record { key = key; value = value })
      (put_is_found key value c h)

pub get-get :
    (key v : String) (c : Lru) → (get key c).0 ≡ some v → (get key (get key c).2).0 ≡ some v
unfolding get find
get-get key v c h = elim (Option-cases (find key c.ll)) [
  | inl e ↦ absurd (ground (arith, e))
  | inr (x, e) ↦ rw (get, e) (ground (arith, e, found_key key c.ll x e))
]

pub cap-get : (key : String) (c : Lru) → (get key c).2.cap ≡ c.cap
unfolding get
cap-get key c = elim (Option-cases (find key c.ll)) [
  | inl e ↦ rw (get, e) refl
  | inr (x, e) ↦ rw (get, e) refl
]

pub cap-put : (key value : String) (c : Lru) → (put key value c).cap ≡ c.cap
unfolding put
cap-put key value c = elim (Option-cases (find key c.ll)) [
  | inl e ↦ rw (put, e) refl
  | inr (x, e) ↦ rw (put, e) refl
]

-- An LRU with room for an entry is a cache as the handler takes it.
abbrev pub lru_cache : CacheOps
lru_cache = record {
  Cache = (c : Lru) × (0 < c.cap);
  get = λ key c. ((get key c.0).0, ((get key c.0).2, omega (arith, c.1, cap-get key c.0)));
  put = λ key value c. (put key value c.0, omega (arith, c.1, cap-put key value c.0));
  get-put = λ key value c. get-put key value c.0 c.1;
}
