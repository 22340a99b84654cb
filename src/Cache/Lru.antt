-- ===== src/Cache/Lru.antt =====
-- cache/lru.go. The list ll runs from the entry used last to the oldest; items leads from a key to its
-- element of ll, so a lookup in items is the search for the key in ll. Each method holds the mutex.
pub mod Bounds
pub mod Valid
use blind_llm_eyes.Base.{
  ℕ, zero, suc, String, str_eq, ltb, if◌then◌else◌, Option, none, some, List, [], ◌∷◌, length,
}

pub record Entry : Type 0 where
  pub key : String
  pub value : String

pub record Lru : Type 0 where
  pub cap : ℕ
  pub ll : List Entry

-- OnLookup("lru", …)
pub data Lookup : Type 0 where
  hit miss : Lookup

unfoldable pub new_lru : ℕ → Lru
new_lru capacity = record { cap = capacity; ll = [] }

-- c.items[key]
unfoldable pub find : String → List Entry → Option Entry
find key [] = none
find key (e ∷ es) = let rest = find key es in if str_eq e.key key then some e else rest

-- ll without the element of the key
unfoldable pub unlink : String → List Entry → List Entry
unlink key [] = []
unlink key (e ∷ es) = let rest = unlink key es in if str_eq e.key key then es else e ∷ rest

-- ll.Remove(ll.Back())
unfoldable pub remove_oldest : List Entry → List Entry
remove_oldest [] = []
remove_oldest (e ∷ []) = []
remove_oldest (e ∷ (f ∷ es)) = e ∷ remove_oldest (f ∷ es)

-- for c.ll.Len() > c.cap; every round takes one element, so the length of the list is fuel enough.
unfoldable pub evict : (fuel cap : ℕ) → List Entry → List Entry
evict zero cap es = es
evict (suc fuel) cap es =
    let rest = evict fuel cap (remove_oldest es) in if ltb cap (length es) then rest else es

unfoldable pub get : String → Lru → Option String × Lookup × Lru
get key c = elim (find key c.ll) [
  | none ↦ (none, miss, c)
  | some e ↦ (some e.value, hit, record c { ll = e ∷ unlink key c.ll })
]

unfoldable pub put : String → String → Lru → Lru
put key value c =
    let entry : Entry = record { key = key; value = value } in
    elim (find key c.ll) [
      | some e ↦ record c { ll = entry ∷ unlink key c.ll }
      | none ↦ record c { ll = evict (suc (length c.ll)) c.cap (entry ∷ c.ll) }
    ]
