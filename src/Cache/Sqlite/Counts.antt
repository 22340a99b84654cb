-- ===== src/Cache/Sqlite/Counts.antt =====
-- The counter of the rows.
use blind_llm_eyes.Base.{
  ℕ, suc, ◌≤◌, ◌≡◌, ◌≢◌, refl, ◌∙◌, ap, String, str_eq, eq_iff, ltb, none, List, [], ◌∷◌, length,
  All, arith, Bool-cases, inl, inr,
}
use blind_llm_eyes.Cache.Sqlite.{
  Row, Sqlite, select, update, insert, has_hash, delete_in, evict_ttl, deleted,
}

-- The primary key: no hash stands twice.
abbrev pub AreDistinct : List Row → Type 0
AreDistinct [] = Unit
AreDistinct (r ∷ rs) = All (λ q. r.hash ≢ q.hash) rs × AreDistinct rs

abbrev pub IsCounted : Sqlite → Type 0
IsCounted s = (s.count ≡ length s.rows) × AreDistinct s.rows

module _ (h : String) where
  apart-update :
      (f : Row → Row) (key : String) (rs : List Row)
      → ((r : Row) → (f r).hash ≡ r.hash)
      → All (λ q. h ≢ q.hash) rs
      → All (λ q. h ≢ q.hash) (update f key rs)
  unfolding update
  apart-update f key [] same a = tt
  apart-update f key (r ∷ rs) same a = elim (Bool-cases (str_eq r.hash key)) [
    | inl e ↦ rw e ((λ q. a.0 (q ∙ same r)), apart-update f key rs same a.1)
    | inr e ↦ rw e (a.0, apart-update f key rs same a.1)
  ]

  apart-insert :
      (r : Row) (rs : List Row)
      → h ≢ r.hash
      → All (λ q. h ≢ q.hash) rs
      → All (λ q. h ≢ q.hash) (insert r rs)
  unfolding insert
  apart-insert r [] n a = (n, tt)
  apart-insert r (q ∷ qs) n a = (a.0, apart-insert r qs n a.1)

  apart-delete_in :
      (vs rs : List Row) → All (λ q. h ≢ q.hash) rs → All (λ q. h ≢ q.hash) (delete_in vs rs)
  unfolding delete_in
  apart-delete_in vs [] a = tt
  apart-delete_in vs (r ∷ rs) a = elim (Bool-cases (has_hash r.hash vs)) [
    | inl e ↦ rw e (apart-delete_in vs rs a.1)
    | inr e ↦ rw e (a.0, apart-delete_in vs rs a.1)
  ]

  apart-evict_ttl :
      (cutoff : ℕ) (rs : List Row)
      → All (λ q. h ≢ q.hash) rs
      → All (λ q. h ≢ q.hash) (evict_ttl cutoff rs)
  unfolding evict_ttl
  apart-evict_ttl cutoff [] a = tt
  apart-evict_ttl cutoff (r ∷ rs) a = elim (Bool-cases (ltb r.created_at cutoff)) [
    | inl e ↦ rw e (apart-evict_ttl cutoff rs a.1)
    | inr e ↦ rw e (a.0, apart-evict_ttl cutoff rs a.1)
  ]

pub update-AreDistinct :
    (f : Row → Row) (key : String) (rs : List Row)
    → ((r : Row) → (f r).hash ≡ r.hash)
    → AreDistinct rs
    → AreDistinct (update f key rs) × (length (update f key rs) ≡ length rs)
unfolding update
update-AreDistinct f key [] same d = (tt, refl)
update-AreDistinct f key (r ∷ rs) same d =
    let (rest, l) = update-AreDistinct f key rs same d.1 in
    elim (Bool-cases (str_eq r.hash key)) [
      | inl e ↦ rw e ((rw (same r) (apart-update r.hash f key rs same d.0), rest), ap suc l)
      | inr e ↦ rw e ((apart-update r.hash f key rs same d.0, rest), ap suc l)
    ]

-- A row with a hash that no row has goes in.
pub insert-AreDistinct :
    (r : Row) (rs : List Row)
    → select r.hash rs ≡ none
    → AreDistinct rs
    → AreDistinct (insert r rs) × (length (insert r rs) ≡ suc (length rs))
unfolding insert select
insert-AreDistinct r [] h d = ((tt, tt), refl)
insert-AreDistinct r (q ∷ qs) h d = elim (Bool-cases (str_eq q.hash r.hash)) [
  | inl e ↦ absurd (ground arith)
  | inr e ↦
      let (rest, l) = insert-AreDistinct r qs (ground arith) d.1 in
      ((apart-insert q.hash r qs (ground (arith, eq_iff q.hash r.hash)) d.0, rest), ap suc l)
]

pub delete_in-AreDistinct :
    (vs rs : List Row)
    → AreDistinct rs
    → AreDistinct (delete_in vs rs) × (length (delete_in vs rs) ≤ length rs)
unfolding delete_in
delete_in-AreDistinct vs [] d = (tt, omega arith)
delete_in-AreDistinct vs (r ∷ rs) d =
    let (rest, l) = delete_in-AreDistinct vs rs d.1 in
    elim (Bool-cases (has_hash r.hash vs)) [
      | inl e ↦ rw e (rest, omega (arith, l))
      | inr e ↦ rw e ((apart-delete_in r.hash vs rs d.0, rest), omega (arith, l))
    ]

pub evict_ttl-AreDistinct :
    (cutoff : ℕ) (rs : List Row)
    → AreDistinct rs
    → AreDistinct (evict_ttl cutoff rs) × (length (evict_ttl cutoff rs) ≤ length rs)
unfolding evict_ttl
evict_ttl-AreDistinct cutoff [] d = (tt, omega arith)
evict_ttl-AreDistinct cutoff (r ∷ rs) d =
    let (rest, l) = evict_ttl-AreDistinct cutoff rs d.1 in
    elim (Bool-cases (ltb r.created_at cutoff)) [
      | inl e ↦ rw e (rest, omega (arith, l))
      | inr e ↦ rw e ((apart-evict_ttl r.hash cutoff rs d.0, rest), omega (arith, l))
    ]

pub deleted-IsCounted :
    (s : Sqlite) (rows : List Row)
    → IsCounted s
    → AreDistinct rows × (length rows ≤ length s.rows)
    → IsCounted (deleted s rows)
deleted-IsCounted s rows c d = (omega (arith, c.0, d.1), d.0)
