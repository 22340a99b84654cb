-- ===== src/Messages/Wire/Merged.antt =====
-- messages/content.go: which fields of a block are written as they came in.
use blind_llm_eyes.Base.{
  split_if, String, ◌≡◌, refl, sym, ap, subst, ◌∙◌, ◌≢◌, ◌⊎◌, inl, inr, true, false, Option, none,
  some, arith, eq_iff, str_eq, if◌then◌else◌, Bool-cases,
}
use blind_llm_eyes.Base.Results.{and_then}
use blind_llm_eyes.Messages.Content.{Block, nil, cons, Raw, Node, block, Blocks, is_tool_result}
use blind_llm_eyes.Messages.Wire.{
  raw_json, is_blank, is_empty, marshal_json, marshal_blocks, with_content, none_left, item,
  marshal_raw, merge, put, obj, arr, Json, Items, Fields, end, field, later_or, lookup, add_new,
  to_map, without,
}

later_or-none : (o : Option Json) → later_or none o ≡ o
later_or-none none = refl
later_or-none (some j) = refl

lookup-add_new :
    (o : Option Json) (k l : String) (v : Json) (fs m : Fields)
    → lookup l fs ≡ o
    → ((h : String) → lookup h m ≡ lookup h fs)
    → lookup k (add_new o l v m) ≡ lookup k (field l v fs)
unfolding lookup
lookup-add_new none k l v fs m e same = rw (same k) refl
lookup-add_new (some w) k l v fs m e same = elim (Bool-cases (str_eq l k)) [
  | inl q ↦ rw (same k) (
      rw q (
        let l_is_k : l ≡ k = ground (arith, eq_iff l k) in
        let found : lookup k fs ≡ some w = subst (λ h. lookup h fs ≡ some w) l_is_k e in
        rw found refl))
  | inr q ↦ rw (same k) (rw q (sym (later_or-none (lookup k fs))))
]

lookup-to_map : (fs : Fields) (k : String) → lookup k (to_map fs) ≡ lookup k fs
unfolding to_map
lookup-to_map end k = refl
lookup-to_map (field l v fs) k =
    lookup-add_new (lookup l fs) k l v fs (to_map fs) refl (lookup-to_map fs)

lookup-without : (k h : String) (fs : Fields) → h ≢ k → lookup h (without k fs) ≡ lookup h fs
unfolding lookup without
lookup-without k h end n = refl
lookup-without k h (field l v fs) n =
    split_if (λ gs. lookup h gs ≡ lookup h (field l v fs)) (str_eq l k) _ _
      (λ e.
        let other : str_eq l h ≡ false = ground (arith, e, n, eq_iff l k, eq_iff l h) in
        rw other (lookup-without k h fs n ∙ sym (later_or-none (lookup h fs))))
      (λ e. ap (later_or (if str_eq l h then some v else none)) (lookup-without k h fs n))

lookup-without-same : (k : String) (fs : Fields) → lookup k (without k fs) ≡ none
unfolding lookup without
lookup-without-same k end = refl
lookup-without-same k (field l v fs) =
    split_if (λ gs. lookup k gs ≡ none) (str_eq l k) _ _ (λ e. lookup-without-same k fs)
      (λ e. rw e (rw (lookup-without-same k fs) refl))

-- Under every other key the two objects have the same.
abbrev pub AgreeBut : String → Fields → Fields → Type 0
AgreeBut k fs gs = (h : String) → h ≢ k → lookup h gs ≡ lookup h fs

put-lookup : (k : String) (v : Json) (fs : Fields) → lookup k (put k v fs) ≡ some v
unfolding lookup
put-lookup k v fs = rw ((eq_iff k k).1 refl) (rw (lookup-without-same k fs) refl)

put-AgreeBut : (k : String) (v : Json) (fs : Fields) → AgreeBut k fs (put k v (to_map fs))
unfolding lookup
put-AgreeBut k v fs h n =
    let other : str_eq k h ≡ false = ground (arith, n, eq_iff k h) in
    rw other (
      later_or-none (lookup h (without k (to_map fs)))
      ∙ lookup-without k h (to_map fs) n
      ∙ lookup-to_map fs h)

-- What a block is written as, that came in as the object `fs`.
abbrev pub Keeps : Node → Blocks → Items → Fields → Fields → Type 0
Keeps n bs xs fs gs =
    AgreeBut "content" fs gs
    × (((is_tool_result n ≡ true) × (is_empty bs ≡ false) × (lookup "content" gs ≡ some (arr xs)))
        ⊎ (((is_tool_result n ≡ false) ⊎ (is_empty bs ≡ true))
            × (lookup "content" gs ≡ lookup "content" fs)))

with_content-Keeps :
    (n : Node) (bs : Blocks) (fs : Fields) (xs : Items)
    → is_tool_result n ≡ true
    → (gs : Fields) × (with_content (is_empty bs) fs (some xs) ≡ some (obj gs))
      × Keeps n bs xs fs gs
unfolding and_then
with_content-Keeps n bs fs xs tool = elim (Bool-cases (is_empty bs)) [
  | inl e ↦ (
    to_map fs,
    rw e refl,
    ((λ h other. lookup-to_map fs h), inr (inr e, lookup-to_map fs "content")),
  )
  | inr e ↦ (
    put "content" (arr xs) (to_map fs),
    rw e refl,
    (put-AgreeBut "content" (arr xs) fs, inl (tool, e, put-lookup "content" (arr xs) (to_map fs))),
  )
]

pub marshal_json-raw :
    (parse : String → Option Json) (n : Node) (bs : Blocks) (r : Raw)
    → n.raw ≡ some r
    → is_blank r ≡ false
    → marshal_json parse (block n bs) ≡ (
        if is_tool_result n
        then merge n (is_empty bs) (marshal_blocks parse bs) (raw_json parse r)
        else raw_json parse r)
unfolding marshal_json
marshal_json-raw parse n bs r has shown =
    ap (marshal_raw parse n (is_empty bs) (marshal_blocks parse bs)) has ∙ rw shown refl

-- The same for one block, whose nested blocks can be written.
pub marshal_json-Keeps :
    (parse : String → Option Json) (n : Node) (bs : Blocks) (r : Raw) (fs : Fields) (xs : Items)
    → n.raw ≡ some r
    → is_blank r ≡ false
    → raw_json parse r ≡ some (obj fs)
    → marshal_blocks parse bs ≡ some xs
    → (gs : Fields) × (marshal_json parse (block n bs) ≡ some (obj gs)) × Keeps n bs xs fs gs
marshal_json-Keeps parse n bs r fs xs has shown reads inner =
    let P = λ (o : Option Json). (gs : Fields) × (o ≡ some (obj gs)) × Keeps n bs xs fs gs in
    subst P (sym (marshal_json-raw parse n bs r has shown)) (
      split_if P (is_tool_result n) _ _
        (λ e.
          subst (λ o. P (merge n (is_empty bs) (marshal_blocks parse bs) o)) (sym reads)
            (subst (λ i. P (with_content (is_empty bs) fs i)) (sym inner)
              (with_content-Keeps n bs fs xs e)))
        (λ e. (fs, reads, ((λ h other. refl), inr (inl e, refl)))))

module _ (parse : String → Option Json) where
  abbrev pub ComesAs : Node → Raw → Fields → Type 0
  ComesAs n r fs = (n.raw ≡ some r) × (is_blank r ≡ false) × (raw_json parse r ≡ some (obj fs))

  -- The block and all blocks in it came in as objects, or were put in the place of an image.
  unfoldable mutual
    pub IsReadable : Block → Type 0
    IsReadable (block n bs) = ((r : Raw) × (fs : Fields) × ComesAs n r fs) × AreReadable bs

    pub AreReadable : Blocks → Type 0
    AreReadable nil = Unit
    AreReadable (cons b bs) = IsReadable b × AreReadable bs

  abbrev pub Written : Block → Type 0
  Written (block n bs) =
      (r : Raw) × (fs : Fields) × (gs : Fields) × (xs : Items) × ComesAs n r fs
      × (marshal_blocks parse bs ≡ some xs)
      × (marshal_json parse (block n bs) ≡ some (obj gs))
      × Keeps n bs xs fs gs

  one_more :
      (j : Json) (b : Block) (bs : Blocks)
      → marshal_json parse b ≡ some j
      → (xs : Items) × (marshal_blocks parse bs ≡ some xs)
      → (xs : Items) × (marshal_blocks parse (cons b bs) ≡ some xs)
  unfolding marshal_json
  one_more j b bs one rest = (item j rest.0, rw (one, rest.1) refl)

  json_of_block : (b : Block) → Written b → (j : Json) × (marshal_json parse b ≡ some j)
  json_of_block (block n bs) (r, fs, gs, xs, comes, inner, out, keeps) = (obj gs, out)

  mutual
    unfolding IsReadable marshal_json

    readable_block : (b : Block) → IsReadable b → Written b
    readable_block (block n bs) ((r, fs, comes), inside) =
        let (xs, inner) = readable_blocks bs inside in
        let (gs, out, keeps) =
          marshal_json-Keeps parse n bs r fs xs comes.0 comes.1 comes.2 inner in
        (r, fs, gs, xs, comes, inner, out, keeps)

    readable_blocks :
        (bs : Blocks) → AreReadable bs → (xs : Items) × (marshal_blocks parse bs ≡ some xs)
    readable_blocks nil h = (none_left, refl)
    readable_blocks (cons b bs) (one, rest) =
        let (j, out) = json_of_block b (readable_block b one) in
        one_more j b bs out (readable_blocks bs rest)

  -- A block of which every block in it came in as an object, or stands for an image, can be written: as an
  -- object with the same under every key but content. A tool_result with nested blocks has these there,
  -- as they are written themselves; any other block has what it had.
  pub marshal_json-Written : (b : Block) → IsReadable b → Written b
  marshal_json-Written = readable_block
