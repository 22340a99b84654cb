-- ===== src/Cache/Sqlite/Evicted.antt =====
-- How many rows an eviction leaves.
use blind_llm_eyes.Base.{
  branches, ℕ, zero, suc, ◌-◌, ◌≡◌, ◌≢◌, refl, sym, ◌∙◌, ap, String, eq_iff, ltb, List, [], ◌∷◌,
  All, length, arith, Bool-cases, inl, inr,
}
use blind_llm_eyes.Cache.Sqlite.{
  Row, insert_by_access, sort_by_access, limit, has_hash, delete_in, evict_lru,
}
use blind_llm_eyes.Cache.Sqlite.Counts.{AreDistinct}

delete_in-insert_by_access :
    (vs : List Row) (r : Row) (qs : List Row)
    → length (delete_in vs (insert_by_access r qs)) ≡ length (delete_in vs (r ∷ qs))
unfolding insert_by_access delete_in
delete_in-insert_by_access vs r [] = refl
delete_in-insert_by_access vs r (q ∷ qs) = elim (Bool-cases (ltb q.last_accessed r.last_accessed)) [
  | inl e ↦ rw e (ground (arith, delete_in-insert_by_access vs r qs))
  | inr e ↦ rw e refl
]

delete_in-sort_by_access :
    (vs rs : List Row) → length (delete_in vs (sort_by_access rs)) ≡ length (delete_in vs rs)
unfolding sort_by_access delete_in
delete_in-sort_by_access vs [] = refl
delete_in-sort_by_access vs (r ∷ rs) =
    delete_in-insert_by_access vs r (sort_by_access rs)
    ∙ ground (arith, delete_in-sort_by_access vs rs)

apart-insert_by_access :
    (h : String) (r : Row) (qs : List Row)
    → h ≢ r.hash
    → All (λ q. h ≢ q.hash) qs
    → All (λ q. h ≢ q.hash) (insert_by_access r qs)
unfolding insert_by_access
apart-insert_by_access h r [] n a = (n, tt)
apart-insert_by_access h r (q ∷ qs) n a =
    branches (All (λ p. h ≢ p.hash)) (ltb q.last_accessed r.last_accessed) _ _
      (a.0, apart-insert_by_access h r qs n a.1) (n, a)

apart-sort_by_access :
    (h : String) (rs : List Row)
    → All (λ q. h ≢ q.hash) rs
    → All (λ q. h ≢ q.hash) (sort_by_access rs)
unfolding sort_by_access
apart-sort_by_access h [] a = tt
apart-sort_by_access h (r ∷ rs) a =
    apart-insert_by_access h r (sort_by_access rs) a.0 (apart-sort_by_access h rs a.1)

insert_by_access-AreDistinct :
    (r : Row) (qs : List Row)
    → All (λ q. r.hash ≢ q.hash) qs
    → AreDistinct qs
    → AreDistinct (insert_by_access r qs) × (length (insert_by_access r qs) ≡ suc (length qs))
unfolding insert_by_access
insert_by_access-AreDistinct r [] a d = ((tt, tt), refl)
insert_by_access-AreDistinct r (q ∷ qs) a d =
    let (rest, l) = insert_by_access-AreDistinct r qs a.1 d.1 in
    branches (λ ps. AreDistinct ps × (length ps ≡ suc (suc (length qs))))
      (ltb q.last_accessed r.last_accessed) _ _
      ((apart-insert_by_access q.hash r qs (λ e. a.0 (sym e)) d.0, rest), ap suc l) ((a, d), refl)

sort_by_access-AreDistinct :
    (rs : List Row)
    → AreDistinct rs
    → AreDistinct (sort_by_access rs) × (length (sort_by_access rs) ≡ length rs)
unfolding sort_by_access
sort_by_access-AreDistinct [] d = (tt, refl)
sort_by_access-AreDistinct (r ∷ rs) d =
    let (rest, l) = sort_by_access-AreDistinct rs d.1 in
    let (whole, k) =
      insert_by_access-AreDistinct r (sort_by_access rs) (apart-sort_by_access r.hash rs d.0)
        rest in
    (whole, k ∙ ap suc l)

delete_none : (rs : List Row) → delete_in [] rs ≡ rs
unfolding delete_in has_hash
delete_none [] = refl
delete_none (r ∷ rs) = ap (λ qs. r ∷ qs) (delete_none rs)

delete_apart :
    (v : Row) (vs rs : List Row)
    → All (λ q. v.hash ≢ q.hash) rs
    → delete_in (v ∷ vs) rs ≡ delete_in vs rs
unfolding delete_in has_hash
delete_apart v vs [] a = refl
delete_apart v vs (r ∷ rs) a = ground (arith, eq_iff v.hash r.hash, a.0, delete_apart v vs rs a.1)

delete_in-limit :
    (n : ℕ) (rs : List Row) → AreDistinct rs → length (delete_in (limit n rs) rs) ≡ length rs - n
unfolding limit delete_in has_hash
delete_in-limit zero rs d = rw (delete_none rs) (omega arith)
delete_in-limit (suc n) [] d = omega arith
delete_in-limit (suc n) (r ∷ rs) d = ground (
  arith,
  (eq_iff r.hash r.hash).1 refl,
  delete_apart r (limit n rs) rs d.0,
  delete_in-limit n rs d.1,
)

pub length-evict_lru :
    (n : ℕ) (rs : List Row) → AreDistinct rs → length (evict_lru n rs) ≡ length rs - n
unfolding evict_lru
length-evict_lru n rs d =
    let (sorted, l) = sort_by_access-AreDistinct rs d in
    sym (delete_in-sort_by_access (limit n (sort_by_access rs)) rs)
    ∙ delete_in-limit n (sort_by_access rs) sorted
    ∙ ap (λ k. k - n) l
