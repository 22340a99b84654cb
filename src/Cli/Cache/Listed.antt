-- ===== src/Cli/Cache/Listed.antt =====
-- cli/cache.go: which rows the subcommand list writes, and in which order.
use mathlib.Core.List.{Permᴰ}
use mathlib.Core.List.Permᴰ
use blind_llm_eyes.Base.{
  pos, false, true, split_if, ℕ, zero, suc, ◌≤◌, ◌<◌, ◌≡◌, refl, ap, List, [], ◌∷◌, ◌++◌, arith,
  ltb, length, All, branches,
}
use blind_llm_eyes.Cache.Sqlite.{Row, limit, insert_by_access, sort_by_access}
use blind_llm_eyes.Cli.Cache.{
  entry_lines, ran, is_two_tier, Config, Terminal, run_cache_list, reverse_onto, newest_first,
}

abbrev IsOldestFirst : List Row → Type 0
IsOldestFirst [] = Unit
IsOldestFirst (r ∷ rs) = All (λ q. r.last_accessed ≤ q.last_accessed) rs × IsOldestFirst rs

-- No row was used later than one in front of it.
abbrev pub IsNewestFirst : List Row → Type 0
IsNewestFirst [] = Unit
IsNewestFirst (r ∷ rs) = All (λ q. q.last_accessed ≤ r.last_accessed) rs × IsNewestFirst rs

All-insert_by_access :
    (P : Row → Type 0) (r : Row) (qs : List Row) → P r → All P qs → All P (insert_by_access r qs)
unfolding insert_by_access
All-insert_by_access P r [] p a = (p, tt)
All-insert_by_access P r (q ∷ qs) p a =
    branches (All P) (ltb q.last_accessed r.last_accessed) _ _
      (a.0, All-insert_by_access P r qs p a.1) (p, a)

All-weaken :
    (m n : ℕ) (qs : List Row)
    → m ≤ n
    → All (λ q. n ≤ q.last_accessed) qs
    → All (λ q. m ≤ q.last_accessed) qs
All-weaken m n [] l a = tt
All-weaken m n (q ∷ qs) l a = (omega (arith, l, a.0), All-weaken m n qs l a.1)

insert_by_access-IsOldestFirst :
    (r : Row) (qs : List Row) → IsOldestFirst qs → IsOldestFirst (insert_by_access r qs)
unfolding insert_by_access
insert_by_access-IsOldestFirst r [] s = (tt, tt)
insert_by_access-IsOldestFirst r (q ∷ qs) s =
    split_if IsOldestFirst (ltb q.last_accessed r.last_accessed) _ _
      (λ e. (
        All-insert_by_access (λ p. q.last_accessed ≤ p.last_accessed) r qs (ground (arith, e)) s.0,
        insert_by_access-IsOldestFirst r qs s.1,
      ))
      (λ e.
        let before : r.last_accessed ≤ q.last_accessed = ground (arith, e) in
        ((before, All-weaken r.last_accessed q.last_accessed qs before s.0), s))

sort_by_access-IsOldestFirst : (rs : List Row) → IsOldestFirst (sort_by_access rs)
unfolding sort_by_access
sort_by_access-IsOldestFirst [] = tt
sort_by_access-IsOldestFirst (r ∷ rs) =
    insert_by_access-IsOldestFirst r (sort_by_access rs) (sort_by_access-IsOldestFirst rs)

-- Each of the first rows was used no earlier than each of the second.
abbrev AllAfter : List Row → List Row → Type 0
AllAfter rs acc = All (λ r. All (λ a. a.last_accessed ≤ r.last_accessed) acc) rs

AllAfter-cons :
    (r : Row) (rs acc : List Row)
    → All (λ q. r.last_accessed ≤ q.last_accessed) rs
    → AllAfter rs acc
    → AllAfter rs (r ∷ acc)
AllAfter-cons r [] acc a c = tt
AllAfter-cons r (q ∷ rs) acc a c = ((a.0, c.0), AllAfter-cons r rs acc a.1 c.1)

reverse_onto-IsNewestFirst :
    (rs acc : List Row)
    → IsOldestFirst rs
    → IsNewestFirst acc
    → AllAfter rs acc
    → IsNewestFirst (reverse_onto rs acc)
unfolding reverse_onto
reverse_onto-IsNewestFirst [] acc s n c = n
reverse_onto-IsNewestFirst (r ∷ rs) acc s n c =
    reverse_onto-IsNewestFirst rs (r ∷ acc) s.1 (c.0, n) (AllAfter-cons r rs acc s.0 c.1)

AllAfter-nil : (rs : List Row) → AllAfter rs []
AllAfter-nil [] = tt
AllAfter-nil (r ∷ rs) = (tt, AllAfter-nil rs)

insert_by_access-perm : (r : Row) (qs : List Row) → Permᴰ (insert_by_access r qs) (r ∷ qs)
unfolding insert_by_access
insert_by_access-perm r [] = Permᴰ.refl (r ∷ [])
insert_by_access-perm r (q ∷ qs) =
    branches (λ ps. Permᴰ ps (r ∷ (q ∷ qs))) (ltb q.last_accessed r.last_accessed) _ _
      (Permᴰ.trans (Permᴰ.cons refl (insert_by_access-perm r qs)) (Permᴰ.swap refl refl))
      (Permᴰ.refl (r ∷ (q ∷ qs)))

sort_by_access-perm : (rs : List Row) → Permᴰ (sort_by_access rs) rs
unfolding sort_by_access
sort_by_access-perm [] = Permᴰ.nil
sort_by_access-perm (r ∷ rs) =
    Permᴰ.trans (insert_by_access-perm r (sort_by_access rs))
      (Permᴰ.cons refl (sort_by_access-perm rs))

reverse_onto-perm : (rs acc : List Row) → Permᴰ (reverse_onto rs acc) (rs ++ acc)
unfolding reverse_onto
reverse_onto-perm [] acc = Permᴰ.refl acc
reverse_onto-perm (r ∷ rs) acc =
    Permᴰ.trans (reverse_onto-perm rs (r ∷ acc)) (Permᴰ.middle r rs acc)

newest_first-IsNewestFirst :
    (rows : List Row) → IsNewestFirst (newest_first rows) × Permᴰ (newest_first rows) rows
unfolding newest_first
newest_first-IsNewestFirst rows =
    let sorted = sort_by_access rows in
    (
      reverse_onto-IsNewestFirst sorted [] (sort_by_access-IsOldestFirst rows) tt
          (AllAfter-nil sorted),
      Permᴰ.trans (reverse_onto-perm sorted [])
          (Permᴰ.trans (Permᴰ.append-nil sorted) (sort_by_access-perm rows)),
    )

-- What a limit takes, and what it leaves.
abbrev pub Cut : ℕ → List Row → List Row → List Row → Type 0
Cut n whole listed rest =
    (whole ≡ listed ++ rest) × (length listed ≤ n) × (length listed < n → rest ≡ [])

limit-Cut : (n : ℕ) (xs : List Row) → (rest : List Row) × Cut n xs (limit n xs) rest
unfolding limit
limit-Cut zero xs = (xs, (refl, omega arith, λ h. absurd (omega (arith, h))))
limit-Cut (suc n) [] = ([], (refl, omega arith, λ h. refl))
limit-Cut (suc n) (x ∷ xs) =
    let (rest, (whole, short, all)) = limit-Cut n xs in
    (rest, (ap (λ ys. x ∷ ys) whole, omega (arith, short), λ h. all (omega (arith, h))))

-- The subcommand list, over a table that can be read, ends with 0, leaves the table as it is, and writes
-- the rows that were used last, the latest first: the rows are those that it takes and a rest, in an order
-- in which no row was used later than one in front of it. It takes no more than the limit, and all rows
-- where they are fewer.
pub list_newest :
    {Float : Type 0} (t : Terminal) (n : ℕ) (c : Config Float) (rows : List Row)
    → is_two_tier c ≡ true
    → t.open_fails ≡ false
    → t.query_fails ≡ false
    → (whole listed rest : List Row) × (run_cache_list t (pos n) c rows
        ≡ ran 0 (entry_lines t.scan_fails listed) rows)
      × Permᴰ whole rows
      × IsNewestFirst whole
      × Cut n whole listed rest
unfolding run_cache_list
list_newest t n c rows two opens queries =
    let (rest, cut) = limit-Cut n (newest_first rows) in
    let (sorted, same) = newest_first-IsNewestFirst rows in
    (
      newest_first rows,
      limit n (newest_first rows),
      rest,
      rw two (rw opens (rw queries refl)),
      same,
      sorted,
      cut,
    )
