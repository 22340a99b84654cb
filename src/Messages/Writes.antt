-- ===== src/Messages/Writes.antt =====
-- Writes through several pointers: what they change, and that their order does not matter.
use mathlib.Core.Option
use blind_llm_eyes.Base.{
  ◌≡◌, refl, ap, if◌then◌else◌, false, List, [], ◌∷◌, arith, Bool-cases, inl, inr,
}
use blind_llm_eyes.Messages.Content.{
  Node, Block, Blocks, block, nil, cons, Message, BlockPtr, BlocksPtr, self, inside, head, next,
  RequestPtr, first, later, node_block, node_blocks, node_at, update_block, update_blocks,
  update_at,
}
use blind_llm_eyes.Messages.Images.{block_ptr_eq, blocks_ptr_eq, ptr_eq}

mutual
  unfolding update_block block_ptr_eq

  update_block_comm :
      (p q : BlockPtr) (f g : Node → Node) (b : Block)
      → block_ptr_eq p q ≡ false
      → update_block p f (update_block q g b) ≡ update_block q g (update_block p f b)
  update_block_comm self self f g (block n bs) h = absurd (ground arith)
  update_block_comm self (inside q) f g (block n bs) h = refl
  update_block_comm (inside p) self f g (block n bs) h = refl
  update_block_comm (inside p) (inside q) f g (block n bs) h =
      ap (block n) (update_blocks_comm p q f g bs h)

  update_blocks_comm :
      (p q : BlocksPtr) (f g : Node → Node) (bs : Blocks)
      → blocks_ptr_eq p q ≡ false
      → update_blocks p f (update_blocks q g bs) ≡ update_blocks q g (update_blocks p f bs)
  update_blocks_comm p q f g nil h = refl
  update_blocks_comm (head p) (head q) f g (cons b bs) h =
      ap (λ c. cons c bs) (update_block_comm p q f g b h)
  update_blocks_comm (head p) (next q) f g (cons b bs) h = refl
  update_blocks_comm (next p) (head q) f g (cons b bs) h = refl
  update_blocks_comm (next p) (next q) f g (cons b bs) h =
      ap (cons b) (update_blocks_comm p q f g bs h)

-- Writes through two different pointers commute.
pub update_at_comm :
    (p q : RequestPtr) (f g : Node → Node) (ms : List Message)
    → ptr_eq p q ≡ false
    → update_at p f (update_at q g ms) ≡ update_at q g (update_at p f ms)
unfolding update_at ptr_eq
update_at_comm p q f g [] h = refl
update_at_comm (first p) (first q) f g (m ∷ ms) h =
    ap (λ c. record m { content = c } ∷ ms) (update_blocks_comm p q f g m.content h)
update_at_comm (first p) (later q) f g (m ∷ ms) h = refl
update_at_comm (later p) (first q) f g (m ∷ ms) h = refl
update_at_comm (later p) (later q) f g (m ∷ ms) h = ap (◌∷◌ m) (update_at_comm p q f g ms h)

mutual
  unfolding update_block node_block block_ptr_eq

  node_block-update :
      (p q : BlockPtr) (f : Node → Node) (b : Block)
      → node_block q (update_block p f b)
        ≡ (if block_ptr_eq p q then Option.map f (node_block q b) else node_block q b)
  node_block-update self self f (block n bs) = refl
  node_block-update self (inside q) f (block n bs) = refl
  node_block-update (inside p) self f (block n bs) = refl
  node_block-update (inside p) (inside q) f (block n bs) = node_blocks-update p q f bs

  node_blocks-update :
      (p q : BlocksPtr) (f : Node → Node) (bs : Blocks)
      → node_blocks q (update_blocks p f bs)
        ≡ (if blocks_ptr_eq p q then Option.map f (node_blocks q bs) else node_blocks q bs)
  node_blocks-update p q f nil = elim (Bool-cases (blocks_ptr_eq p q)) [
    | inl same ↦ rw same
    | inr other ↦ rw other
  ]
  node_blocks-update (head p) (head q) f (cons b bs) = node_block-update p q f b
  node_blocks-update (head p) (next q) f (cons b bs) = refl
  node_blocks-update (next p) (head q) f (cons b bs) = refl
  node_blocks-update (next p) (next q) f (cons b bs) = node_blocks-update p q f bs

-- A write changes what is behind its own pointer, and behind no other.
pub node_at-update_at :
    (p q : RequestPtr) (f : Node → Node) (ms : List Message)
    → node_at q (update_at p f ms)
      ≡ (if ptr_eq p q then Option.map f (node_at q ms) else node_at q ms)
unfolding update_at node_at ptr_eq
node_at-update_at p q f [] = elim (Bool-cases (ptr_eq p q)) [
  | inl same ↦ rw same
  | inr other ↦ rw other
]
node_at-update_at (first p) (first q) f (m ∷ ms) = node_blocks-update p q f m.content
node_at-update_at (first p) (later q) f (m ∷ ms) = refl
node_at-update_at (later p) (first q) f (m ∷ ms) = refl
node_at-update_at (later p) (later q) f (m ∷ ms) = node_at-update_at p q f ms
