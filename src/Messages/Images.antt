-- ===== src/Messages/Images.antt =====
-- What the writes through the pointers of FindImageBlocks do to a request.
use blind_llm_eyes.Base.{
  ℕ, suc, ◌≡◌, refl, sym, ap₂, ◌∙◌, if◌then◌else◌, Bool, true, false, some, List, [], ◌∷◌, ◌++◌,
  map, arith,
}
use blind_llm_eyes.Messages.Content.{
  Node, Block, Blocks, block, nil, cons, BlockPtr, BlocksPtr, self, inside, head, next, RequestPtr,
  first, later, is_image, is_tool_result, collect_block, collect_blocks, node_block, node_blocks,
  update_block, update_blocks,
}

unfoldable mutual
  pub block_ptr_eq : BlockPtr → BlockPtr → Bool
  block_ptr_eq self self = true
  block_ptr_eq self (inside q) = false
  block_ptr_eq (inside p) self = false
  block_ptr_eq (inside p) (inside q) = blocks_ptr_eq p q

  pub blocks_ptr_eq : BlocksPtr → BlocksPtr → Bool
  blocks_ptr_eq (head p) (head q) = block_ptr_eq p q
  blocks_ptr_eq (head p) (next q) = false
  blocks_ptr_eq (next p) (head q) = false
  blocks_ptr_eq (next p) (next q) = blocks_ptr_eq p q

unfoldable pub ptr_eq : RequestPtr → RequestPtr → Bool
unfolding block_ptr_eq
ptr_eq (first p) (first q) = blocks_ptr_eq p q
ptr_eq (first p) (later q) = false
ptr_eq (later p) (first q) = false
ptr_eq (later p) (later q) = ptr_eq p q

-- The list without the items that the test picks.
module _ {ℓ} {A : Type ℓ} (test : A → Bool) where
  unfoldable pub without : List A → List A
  without [] = []
  without (x ∷ xs) = if test x then without xs else x ∷ without xs

  pub without-append : (xs ys : List A) → without (xs ++ ys) ≡ without xs ++ without ys
  unfolding without
  without-append [] ys = refl
  without-append (x ∷ xs) ys = ground (arith, without-append xs ys)

pub without-map_miss {ℓ κ} :
    {A : Type ℓ} {B : Type κ} (f : A → B) (t : B → Bool) (xs : List A)
    → ((x : A) → t (f x) ≡ false)
    → without t (map f xs) ≡ map f xs
unfolding without
without-map_miss f t [] h = refl
without-map_miss f t (x ∷ xs) h = ground (arith, h x, without-map_miss f t xs h)

pub without-map {ℓ κ} :
    {A : Type ℓ} {B : Type κ} (f : A → B) (s : A → Bool) (t : B → Bool) (xs : List A)
    → ((x : A) → t (f x) ≡ s x)
    → without t (map f xs) ≡ map f (without s xs)
unfolding without
without-map f s t [] h = refl
without-map f s t (x ∷ xs) h = ground (arith, h x, without-map f s t xs h)

without_head :
    (p : BlockPtr) (xs : List BlockPtr) (ys : List BlocksPtr)
    → without (blocks_ptr_eq (head p)) (map head xs ++ map next ys)
      ≡ map head (without (block_ptr_eq p) xs) ++ map next ys
unfolding block_ptr_eq
without_head p xs ys =
    without-append (blocks_ptr_eq (head p)) (map head xs) (map next ys)
    ∙ ap₂ ◌++◌ (without-map head (block_ptr_eq p) _ xs (λ x. refl))
        (without-map_miss next _ ys (λ x. refl))

without_next :
    (p : BlocksPtr) (xs : List BlockPtr) (ys : List BlocksPtr)
    → without (blocks_ptr_eq (next p)) (map head xs ++ map next ys)
      ≡ map head xs ++ map next (without (blocks_ptr_eq p) ys)
unfolding block_ptr_eq
without_next p xs ys =
    without-append (blocks_ptr_eq (next p)) (map head xs) (map next ys)
    ∙ ap₂ ◌++◌ (without-map_miss head _ xs (λ x. refl))
        (without-map next (blocks_ptr_eq p) _ ys (λ x. refl))

-- A node that is no image and holds no content to look into.
abbrev pub IsPlain : Node → Type 0
IsPlain n = (is_image n ≡ false) × (is_tool_result n ≡ false)

module _ (f : Node → Node) (plain : (n : Node) → IsPlain (f n)) where
  mutual
    unfolding collect_block update_block node_block block_ptr_eq without

    collect-update_block :
        (p : BlockPtr) (b : Block) (n : Node) (depth : ℕ)
        → node_block p b ≡ some n
        → is_tool_result n ≡ false
        → collect_block (update_block p f b) depth
          ≡ without (block_ptr_eq p) (collect_block b depth)
    collect-update_block self (block m bs) n depth at leaf = ground (arith, plain m)
    collect-update_block (inside p) (block m bs) n depth at leaf = ground (
      arith,
      collect-update_blocks p bs n (suc depth) at leaf,
      without-map inside (blocks_ptr_eq p) (block_ptr_eq (inside p)) (collect_blocks bs (suc depth))
          (λ x. refl),
    )

    pub collect-update_blocks :
        (p : BlocksPtr) (bs : Blocks) (n : Node) (depth : ℕ)
        → node_blocks p bs ≡ some n
        → is_tool_result n ≡ false
        → collect_blocks (update_blocks p f bs) depth
          ≡ without (blocks_ptr_eq p) (collect_blocks bs depth)
    collect-update_blocks p nil n depth at leaf = refl
    collect-update_blocks (head p) (cons b bs) n depth at leaf =
        rw (collect-update_block p b n depth at leaf)
          (sym (without_head p (collect_block b depth) (collect_blocks bs depth)))
    collect-update_blocks (next p) (cons b bs) n depth at leaf =
        rw (collect-update_blocks p bs n depth at leaf)
          (sym (without_next p (collect_block b depth) (collect_blocks bs depth)))
