-- ===== src/Vision/Pool/Order.antt =====
-- What NewPool accepts, and the order in which the pool tries its providers.
use blind_llm_eyes.Base.{
  ℕ, suc, ◌∙◌, ◌≡◌, ◌≢◌, ◌↔◌, refl, String, ℤ, ltb_ℤ, ◌≤ℤ◌, eq_iff, if◌then◌else◌, false, not, ◌&&◌,
  none, some, List, [], ◌∷◌, All, arith,
}
use blind_llm_eyes.Vision.Pool.{
  PoolEntry, Member, NewPool, pool, invalid, member, check_entries, contains, insert_member,
  sort_members, new_pool,
}

pub IsSorted : List Member → Type 0
IsSorted [] = Unit
IsSorted (m ∷ ms) = All (λ n. m.priority ≤ℤ n.priority) ms × IsSorted ms

-- The members of one priority, in their order.
pub at_priority : ℤ → List Member → List Member
at_priority p [] = []
at_priority p (m ∷ ms) =
    if not (ltb_ℤ p m.priority) && not (ltb_ℤ m.priority p)
    then m ∷ at_priority p ms
    else at_priority p ms

All-insert_member :
    (p : ℤ) (m : Member) (ns : List Member)
    → p ≤ℤ m.priority
    → All (λ n. p ≤ℤ n.priority) ns
    → All (λ n. p ≤ℤ n.priority) (insert_member m ns)
unfolding insert_member
All-insert_member p m [] h a = (h, tt)
All-insert_member p m (n ∷ ns) h a = ground (arith, All-insert_member p m ns)

All-le_trans :
    (p q : ℤ) (ns : List Member)
    → p ≤ℤ q
    → All (λ n. q ≤ℤ n.priority) ns
    → All (λ n. p ≤ℤ n.priority) ns
All-le_trans p q [] h a = tt
All-le_trans p q (n ∷ ns) h a = (omega arith, All-le_trans p q ns h a.1)

insert_member-IsSorted :
    (m : Member) (ns : List Member) → IsSorted ns → IsSorted (insert_member m ns)
unfolding insert_member IsSorted
insert_member-IsSorted m [] s = (tt, tt)
insert_member-IsSorted m (n ∷ ns) s = ground (
  arith,
  insert_member-IsSorted m ns,
  All-insert_member n.priority m ns,
  All-le_trans m.priority n.priority ns,
)

at_priority-insert_member :
    (p : ℤ) (m : Member) (ns : List Member)
    → at_priority p (insert_member m ns) ≡ at_priority p (m ∷ ns)
unfolding insert_member at_priority
at_priority-insert_member p m [] = refl
at_priority-insert_member p m (n ∷ ns) = ground (arith, at_priority-insert_member p m ns)

pub sort_members-IsSorted : (ms : List Member) → IsSorted (sort_members ms)
unfolding sort_members IsSorted
sort_members-IsSorted [] = tt
sort_members-IsSorted (m ∷ ms) =
    insert_member-IsSorted m (sort_members ms) (sort_members-IsSorted ms)

at_priority-sort_members :
    (p : ℤ) (ms : List Member) → at_priority p (sort_members ms) ≡ at_priority p ms
unfolding sort_members at_priority
at_priority-sort_members p [] = refl
at_priority-sort_members p (m ∷ ms) =
    at_priority-insert_member p m (sort_members ms)
    ∙ unfold at_priority in ground (arith, at_priority-sort_members p ms)

-- The entries as members, where each has a provider.
unfoldable pub checked : List PoolEntry → List Member
checked [] = []
checked (e ∷ es) = elim e.provider [ none ↦ checked es | some p ↦ member e p ∷ checked es ]

-- What NewPool asks of an entry that stands behind the names `names`.
abbrev Fits : List String → PoolEntry → Type 0
Fits names e = (e.name ≢ "") × All (λ n. n ≢ e.name) names × (e.provider ≢ none)

-- Every name is given, no two are alike, and every provider is there.
abbrev pub IsProper : List PoolEntry → Type 0
IsProper [] = Unit
IsProper (e ∷ es) =
    (e.name ≢ "") × (e.provider ≢ none) × All (λ f. e.name ≢ f.name) es × IsProper es

not-contains : (s : String) (ts : List String) → contains s ts ≡ false → All (λ t. t ≢ s) ts
unfolding contains
not-contains s [] h = tt
not-contains s (t ∷ ts) h = (ground (arith, eq_iff t s), not-contains s ts (ground arith))

contains-false : (s : String) (ts : List String) → All (λ t. t ≢ s) ts → contains s ts ≡ false
unfolding contains
contains-false s [] h = refl
contains-false s (t ∷ ts) h = ground (arith, eq_iff t s, contains-false s ts h.1)

split-Fits :
    (n : String) (names : List String) (es : List PoolEntry)
    → All (Fits (n ∷ names)) es
    → All (λ f. n ≢ f.name) es × All (Fits names) es
split-Fits n names [] a = (tt, tt)
split-Fits n names (e ∷ es) a =
    let rest = split-Fits n names es a.1 in ((a.0.1.0, rest.0), ((a.0.0, a.0.1.1, a.0.2), rest.1))

join-Fits :
    (n : String) (names : List String) (es : List PoolEntry)
    → All (λ f. n ≢ f.name) es
    → All (Fits names) es
    → All (Fits (n ∷ names)) es
join-Fits n names [] d a = tt
join-Fits n names (e ∷ es) d a = ((a.0.0, (d.0, a.0.1), a.0.2), join-Fits n names es d.1 a.1)

proper-Fits : (es : List PoolEntry) → IsProper es → All (Fits []) es
proper-Fits [] h = tt
proper-Fits (e ∷ es) h = ((h.0, tt, h.1), proper-Fits es h.3)

check_accepts :
    (i : ℕ) (names : List String) (es : List PoolEntry)
    → All (Fits names) es
    → IsProper es
    → check_entries i names es ≡ pool (checked es)
unfolding check_entries checked
check_accepts i names [] a h = refl
check_accepts i names (e ∷ es) a h = ground (
  arith,
  eq_iff e.name "",
  contains-false e.name names a.0.1,
  check_accepts (suc i) (e.name ∷ names) es (join-Fits e.name names es h.2 a.1) h.3,
)

check_inversion :
    (i : ℕ) (names : List String) (e : PoolEntry) (es : List PoolEntry) (ms : List Member)
    → check_entries i names (e ∷ es) ≡ pool ms
    → (e.name ≢ "")
      × (contains e.name names ≡ false)
      × (e.provider ≢ none)
      × (ns : List Member) × (check_entries (suc i) (e.name ∷ names) es ≡ pool ns)
unfolding check_entries
check_inversion i names e es ms h = rest_cases (check_entries (suc i) (e.name ∷ names) es) refl
  where
    rest_cases :
        (r : NewPool)
        → check_entries (suc i) (e.name ∷ names) es ≡ r
        → (e.name ≢ "")
          × (contains e.name names ≡ false)
          × (e.provider ≢ none)
          × (ns : List Member) × (check_entries (suc i) (e.name ∷ names) es ≡ pool ns)
    rest_cases (pool ns) q = (ground (arith, eq_iff e.name ""), ground arith, ground arith, ns, q)
    rest_cases (invalid x) q = absurd (ground arith)

check_sound :
    (i : ℕ) (names : List String) (es : List PoolEntry) (ms : List Member)
    → check_entries i names es ≡ pool ms
    → All (Fits names) es × IsProper es
check_sound i names [] ms h = (tt, tt)
check_sound i names (e ∷ es) ms h =
    let (named, fresh, given, ns, q) = check_inversion i names e es ms h in
    let (fits, proper) = check_sound (suc i) (e.name ∷ names) es ns q in
    let (other, rest) = split-Fits e.name names es fits in
    (((named, not-contains e.name names fresh, given), rest), (named, given, other, proper))

check_all :
    (i : ℕ) (names : List String) (es : List PoolEntry) (ms : List Member)
    → check_entries i names es ≡ pool ms
    → ms ≡ checked es
check_all i names es ms h =
    let (fits, proper) = check_sound i names es ms h in
    ground (arith, check_accepts i names es fits proper)

pub new_pool_inversion :
    (es : List PoolEntry) (ms : List Member)
    → new_pool es ≡ pool ms
    → (es ≢ []) × IsProper es × (ms ≡ sort_members (checked es))
unfolding new_pool
new_pool_inversion [] ms h = absurd (ground arith)
new_pool_inversion (e ∷ es) ms h = checks (check_entries 0 [] (e ∷ es)) refl
  where
    checks :
        (r : NewPool)
        → check_entries 0 [] (e ∷ es) ≡ r
        → (e ∷ es ≢ []) × IsProper (e ∷ es) × (ms ≡ sort_members (checked (e ∷ es)))
    checks (pool ns) q = (
      (λ c. cc),
      (check_sound 0 [] (e ∷ es) ns q).1,
      ground (arith, check_all 0 [] (e ∷ es) ns q),
    )
    checks (invalid x) q = absurd (ground arith)

-- NewPool accepts exactly the non-empty lists of entries that have providers and distinct,
-- non-empty names.
pub new_pool_iff :
    (es : List PoolEntry)
    → ((ms : List Member) × (new_pool es ≡ pool ms)) ↔ ((es ≢ []) × IsProper es)
unfolding new_pool
new_pool_iff [] = ((λ h. absurd ((new_pool_inversion [] h.0 h.1).0 refl)), (λ h. absurd (h.0 refl)))
new_pool_iff (e ∷ es) = (
  (λ h. let i = new_pool_inversion (e ∷ es) h.0 h.1 in (i.0, i.1)),
  (λ h. (
    sort_members (checked (e ∷ es)),
    ground (arith, check_accepts 0 [] (e ∷ es) (proper-Fits (e ∷ es) h.1) h.1),
  )),
)

-- The pool that NewPool builds holds the entries sorted by priority, those of one priority in the
-- order of the configuration.
pub new_pool-IsSorted :
    (es : List PoolEntry) (ms : List Member)
    → new_pool es ≡ pool ms
    → IsSorted ms × ((p : ℤ) → at_priority p ms ≡ at_priority p (checked es))
new_pool-IsSorted es ms h =
    let e = (new_pool_inversion es ms h).2 in
    rw e (sort_members-IsSorted (checked es), λ p. at_priority-sort_members p (checked es))
