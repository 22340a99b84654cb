-- ===== src/Messages/Rewritten.antt =====
-- After a description has been written through every pointer of FindImageBlocks, no image is left.
use blind_llm_eyes.Base.{
  ℕ, suc, ◌≡◌, refl, sym, ap, ◌∙◌, String, str_eq, eq_iff, ltb, Bool, true, false, ◌&&◌, ◌||◌, some,
  List, [], ◌∷◌, map, All, All-append, All-map, arith, Bool-cases, inl, inr,
}
use blind_llm_eyes.Messages.Content.{
  max_collect_depth, Node, Block, Blocks, block, nil, cons, Message, inside, head, next, RequestPtr,
  first, later, is_image, is_tool_result, collect_block, collect_blocks, find_image_blocks,
  node_block, node_blocks, node_at, update_at,
}
use blind_llm_eyes.Messages.Rewrite.{replace_image}
use blind_llm_eyes.Messages.Images.{
  ptr_eq, blocks_ptr_eq, without, without-append, without-map, without-map_miss, IsPlain,
  collect-update_blocks,
}
use blind_llm_eyes.Messages.Writes.{node_at-update_at}

-- A description is no image, and holds no blocks to look into.
replace_image-IsPlain : (d : String) (n : Node) → IsPlain (replace_image d n)
unfolding replace_image is_image is_tool_result
replace_image-IsPlain d n = (refl, refl)

-- The pointer leads to a block that is no tool_result.
abbrev LeadsToLeaf : List Message → RequestPtr → Type 0
LeadsToLeaf ms p = (n : Node) × (node_at p ms ≡ some n) × (is_tool_result n ≡ false)

find-update_at :
    (p : RequestPtr) (d : String) (ms : List Message)
    → LeadsToLeaf ms p
    → find_image_blocks (update_at p (replace_image d) ms)
      ≡ without (ptr_eq p) (find_image_blocks ms)
unfolding find_image_blocks update_at node_at ptr_eq without
find-update_at p d [] h = refl
find-update_at (first p) d (m ∷ ms) (n, at, leaf) = ground (
  arith,
  collect-update_blocks (replace_image d) (replace_image-IsPlain d) p m.content n 0 at leaf,
  without-append (ptr_eq (first p)) (map first (collect_blocks m.content 0))
      (map later (find_image_blocks ms)),
  without-map first (blocks_ptr_eq p) (ptr_eq (first p)) (collect_blocks m.content 0) (λ x. refl),
  without-map_miss later (ptr_eq (first p)) (find_image_blocks ms) (λ x. refl),
)
find-update_at (later p) d (m ∷ ms) h = ground (
  arith,
  find-update_at p d ms h,
  without-append (ptr_eq (later p)) (map first (collect_blocks m.content 0))
      (map later (find_image_blocks ms)),
  without-map_miss first (ptr_eq (later p)) (collect_blocks m.content 0) (λ x. refl),
  without-map later (ptr_eq p) (ptr_eq (later p)) (find_image_blocks ms) (λ x. refl),
)

-- A pointer that collectImageBlocks gives leads to an image.
mutual
  unfolding collect_block node_block

  found_block :
      (b : Block) (depth : ℕ)
      → All
          (λ p. (n : Node) × (node_block p b ≡ some n) × (is_image n ≡ true))
          (collect_block b depth)
  found_block (block n bs) depth = elim (Bool-cases (is_image n)) [
    | inl image ↦ rw image ((n, refl, image), tt)
    | inr other ↦ rw other (elim (Bool-cases (is_tool_result n && ltb depth max_collect_depth)) [
      | inl deeper ↦ rw deeper (
          All-map (λ p. (m : Node) × (node_block p (block n bs) ≡ some m) × (is_image m ≡ true))
            inside (collect_blocks bs (suc depth)) (found_blocks bs (suc depth)))
      | inr stop ↦ rw stop tt
    ])
  ]

  found_blocks :
      (bs : Blocks) (depth : ℕ)
      → All
          (λ p. (n : Node) × (node_blocks p bs ≡ some n) × (is_image n ≡ true))
          (collect_blocks bs depth)
  found_blocks nil depth = tt
  found_blocks (cons b bs) depth =
      All-append _ (map head (collect_block b depth)) (map next (collect_blocks bs depth))
        (All-map _ head (collect_block b depth) (found_block b depth))
        (All-map _ next (collect_blocks bs depth) (found_blocks bs depth))

abbrev pub LeadsToImage : List Message → RequestPtr → Type 0
LeadsToImage ms p = (n : Node) × (node_at p ms ≡ some n) × (is_image n ≡ true)

pub find-LeadsToImage : (ms : List Message) → All (LeadsToImage ms) (find_image_blocks ms)
unfolding find_image_blocks node_at
find-LeadsToImage [] = tt
find-LeadsToImage (m ∷ ms) =
    All-append (LeadsToImage (m ∷ ms)) _ (map later (find_image_blocks ms))
      (elim (Bool-cases (str_eq m.role "user")) [
        | inl user ↦ rw user (
            All-map (LeadsToImage (m ∷ ms)) first (collect_blocks m.content 0)
              (found_blocks m.content 0))
        | inr other ↦ rw other tt
      ])
      (All-map (LeadsToImage (m ∷ ms)) later (find_image_blocks ms) (find-LeadsToImage ms))

-- ReplaceImageWithDescription through one pointer after another.
unfoldable pub rewrite_all : List (RequestPtr × String) → List Message → List Message
rewrite_all [] ms = ms
rewrite_all ((p, d) ∷ zs) ms = rewrite_all zs (update_at p (replace_image d) ms)

unfoldable pub is_target : List (RequestPtr × String) → RequestPtr → Bool
is_target [] q = false
is_target ((p, d) ∷ zs) q = ptr_eq p q || is_target zs q

leaf_of_image : (ms : List Message) (p : RequestPtr) → LeadsToImage ms p → LeadsToLeaf ms p
unfolding is_image is_tool_result
leaf_of_image ms p (n, at, image) = let e = (eq_iff n.typ "image").0 (ground arith) in (n, at, rw e)

leaf-update_at :
    (p q : RequestPtr) (d : String) (ms : List Message)
    → LeadsToLeaf ms q
    → LeadsToLeaf (update_at p (replace_image d) ms) q
leaf-update_at p q d ms (n, at, leaf) = elim (Bool-cases (ptr_eq p q)) [
  | inl same ↦ (
    replace_image d n,
    node_at-update_at p q (replace_image d) ms ∙ rw (same, at),
    (replace_image-IsPlain d n).1,
  )
  | inr other ↦ (n, node_at-update_at p q (replace_image d) ms ∙ rw other at, leaf)
]

leaves-update_at :
    (p : RequestPtr) (d : String) (ms : List Message) (zs : List (RequestPtr × String))
    → All (λ z. LeadsToLeaf ms z.0) zs
    → All (λ z. LeadsToLeaf (update_at p (replace_image d) ms) z.0) zs
leaves-update_at p d ms [] h = tt
leaves-update_at p d ms (z ∷ zs) h = (leaf-update_at p z.0 d ms h.0, leaves-update_at p d ms zs h.1)

without-without {ℓ} :
    {A : Type ℓ} (s t : A → Bool) (xs : List A)
    → without t (without s xs) ≡ without (λ x. s x || t x) xs
unfolding without
without-without s t [] = refl
without-without s t (x ∷ xs) = ground (arith, without-without s t xs)

without_everything {ℓ} :
    {A : Type ℓ} (t : A → Bool) (xs : List A) → All (λ x. t x ≡ true) xs → without t xs ≡ []
unfolding without
without_everything t [] h = refl
without_everything t (x ∷ xs) h = ground (arith, without_everything t xs)

without_nothing {ℓ} : {A : Type ℓ} (xs : List A) → without (λ x. false) xs ≡ xs
unfolding without
without_nothing [] = refl
without_nothing (x ∷ xs) = ap (◌∷◌ x) (without_nothing xs)

-- The images that are left are those that no write reached.
pub find-rewrite_all :
    (zs : List (RequestPtr × String)) (ms : List Message)
    → All (λ z. LeadsToLeaf ms z.0) zs
    → find_image_blocks (rewrite_all zs ms) ≡ without (is_target zs) (find_image_blocks ms)
unfolding rewrite_all is_target
find-rewrite_all [] ms h = sym (without_nothing (find_image_blocks ms))
find-rewrite_all ((p, d) ∷ zs) ms h =
    find-rewrite_all zs (update_at p (replace_image d) ms) (leaves-update_at p d ms zs h.1)
    ∙ ap (without (is_target zs)) (find-update_at p d ms h.0)
    ∙ without-without (ptr_eq p) (is_target zs) (find_image_blocks ms)

leaves_of_images :
    (ms : List Message) (zs : List (RequestPtr × String))
    → All (λ z. LeadsToImage ms z.0) zs
    → All (λ z. LeadsToLeaf ms z.0) zs
leaves_of_images ms [] h = tt
leaves_of_images ms (z ∷ zs) h = (leaf_of_image ms z.0 h.0, leaves_of_images ms zs h.1)

-- Once a description has been written through every pointer of FindImageBlocks, in whatever order,
-- it finds no image any more.
pub rewrite_all_complete :
    (zs : List (RequestPtr × String)) (ms : List Message)
    → All (λ z. LeadsToImage ms z.0) zs
    → All (λ p. is_target zs p ≡ true) (find_image_blocks ms)
    → find_image_blocks (rewrite_all zs ms) ≡ []
rewrite_all_complete zs ms images all =
    find-rewrite_all zs ms (leaves_of_images ms zs images)
    ∙ without_everything (is_target zs) (find_image_blocks ms) all
