-- ===== src/Cache/Lru/Bounds.antt =====
-- The entries of the LRU: never more than the capacity, and one for a key.
use blind_llm_eyes.Base.{
  ℕ, zero, suc, ◌+◌, ◌-◌, ◌≤◌, ◌≡◌, refl, ap, String, str_eq, ltb, true, if◌then◌else◌, none, some,
  List, [], ◌∷◌, length, arith, Bool-cases, inl, inr,
}
use blind_llm_eyes.Cache.Lru.{Entry, Lru, find, unlink, remove_oldest, evict}

length-remove_oldest : (es : List Entry) → length (remove_oldest es) ≡ length es - 1
unfolding remove_oldest
length-remove_oldest [] = omega arith
length-remove_oldest (e ∷ []) = omega arith
length-remove_oldest (e ∷ (f ∷ es)) = omega (arith, length-remove_oldest (f ∷ es))

pub length-evict :
    (fuel cap : ℕ) (es : List Entry) → length es ≤ fuel + cap → length (evict fuel cap es) ≤ cap
unfolding evict
length-evict zero cap es h = omega arith
length-evict (suc fuel) cap es h = elim (Bool-cases (ltb cap (length es))) [
  | inl over ↦
      ground
        (arith, length-evict fuel cap (remove_oldest es) (omega (arith, length-remove_oldest es)))
  | inr fits ↦ ground arith
]

pub length-unlink :
    (key : String) (es : List Entry) (e : Entry)
    → find key es ≡ some e
    → suc (length (unlink key es)) ≡ length es
unfolding unlink find
length-unlink key [] e h = absurd (ground arith)
length-unlink key (x ∷ es) e h = elim (Bool-cases (str_eq x.key key)) [
  | inl same ↦ rw same refl
  | inr other ↦ rw other (ap suc (length-unlink key es e (ground arith)))
]

-- The number of entries whose key it is.
unfoldable pub count_key : String → List Entry → ℕ
count_key key [] = 0
count_key key (e ∷ es) = let rest = count_key key es in if str_eq e.key key then suc rest else rest

-- The list is within the capacity, and no key stands in it twice.
abbrev pub IsValid : Lru → Type 0
IsValid c = (length c.ll ≤ c.cap) × ((key : String) → count_key key c.ll ≤ 1)

pub count-unlink : (key k : String) (es : List Entry) → count_key k (unlink key es) ≤ count_key k es
unfolding unlink count_key
count-unlink key k [] = omega arith
count-unlink key k (e ∷ es) = elim (Bool-cases (str_eq e.key key)) [
  | inl same ↦ ground arith
  | inr other ↦ ground (arith, count-unlink key k es)
]

count-remove_oldest :
    (k : String) (es : List Entry) → count_key k (remove_oldest es) ≤ count_key k es
unfolding remove_oldest count_key
count-remove_oldest k [] = omega arith
count-remove_oldest k (e ∷ []) = ground arith
count-remove_oldest k (e ∷ (f ∷ es)) = ground (arith, count-remove_oldest k (f ∷ es))

pub count-evict :
    (k : String) (fuel cap : ℕ) (es : List Entry) → count_key k (evict fuel cap es) ≤ count_key k es
unfolding evict
count-evict k zero cap es = omega arith
count-evict k (suc fuel) cap es = elim (Bool-cases (ltb cap (length es))) [
  | inl over ↦ ground (arith, count-evict k fuel cap (remove_oldest es), count-remove_oldest k es)
  | inr fits ↦ ground arith
]

-- The first entry of the key counts.
pub count-find-none : (key : String) (es : List Entry) → find key es ≡ none → count_key key es ≡ 0
unfolding find count_key
count-find-none key [] h = refl
count-find-none key (e ∷ es) h = ground (arith, count-find-none key es)

pub found_key :
    (key : String) (es : List Entry) (e : Entry) → find key es ≡ some e → str_eq e.key key ≡ true
unfolding find
found_key key [] e h = absurd (ground arith)
found_key key (x ∷ es) e h = elim (Bool-cases (str_eq x.key key)) [
  | inl same ↦ ground arith
  | inr other ↦ found_key key es e (ground arith)
]

pub count-unlink_same :
    (key : String) (es : List Entry) (e : Entry)
    → find key es ≡ some e
    → suc (count_key key (unlink key es)) ≡ count_key key es
unfolding unlink find count_key
count-unlink_same key [] e h = absurd (ground arith)
count-unlink_same key (x ∷ es) e h = elim (Bool-cases (str_eq x.key key)) [
  | inl same ↦ ground arith
  | inr other ↦ ground (arith, count-unlink_same key es e (ground arith))
]
