-- ===== src/Messages/Content.antt =====
-- messages/content.go, the image walk of messages/parse.go and the replacement of messages/rewrite.go.
-- The pointers into the slices of a request are paths here, so that a write through one is a write
-- to the request.
use blind_llm_eyes.Base.{
  ℕ, suc, ℤ, String, str_eq, ltb, if◌then◌else◌, Bool, false, not, ◌&&◌, Option, none, some, List,
  [], ◌∷◌, ◌++◌, map,
}

pub record ImageSource : Type 0 where
  pub typ : String
  pub media_type : String
  pub base64_data : String

-- The raw JSON of a block: what came in, or what a replacement wrote, {"type":"text","text":…}.
pub data Raw : Type 0 where
  original text_object : String → Raw

-- The fields of a ContentBlock but its nested content.
pub record Node : Type 0 where
  pub raw : Option Raw
  pub typ : String
  pub text : String
  pub source : Option ImageSource
  pub is_error : Bool

mutual
  pub data Block : Type 0 where
    block : Node → Blocks → Block

  -- MessageContent and SystemContent
  pub data Blocks : Type 0 where
    nil : Blocks
    cons : Block → Blocks → Blocks

pub record Message : Type 0 where
  pub role : String
  pub content : Blocks

pub record Request : Type 0 where
  pub model : String
  pub messages : List Message
  pub max_tokens : ℤ
  pub system : Blocks
  pub stream : Bool

abbrev pub append_blocks : Blocks → Blocks → Blocks
append_blocks nil cs = cs
append_blocks (cons b bs) cs = cons b (append_blocks bs cs)

abbrev pub has_data : Option ImageSource → Bool
has_data none = false
has_data (some s) = not (str_eq s.base64_data "")

-- blk.Type == "image" && blk.Source != nil && blk.Source.Data != ""
unfoldable pub is_image : Node → Bool
is_image n = str_eq n.typ "image" && has_data n.source

unfoldable pub is_tool_result : Node → Bool
is_tool_result n = str_eq n.typ "tool_result"

-- &blk, or a pointer to a block of its content; &blocks[0].…, or a pointer behind the first block.
mutual
  pub data BlockPtr : Type 0 where
    self : BlockPtr
    inside : BlocksPtr → BlockPtr

  pub data BlocksPtr : Type 0 where
    head : BlockPtr → BlocksPtr
    next : BlocksPtr → BlocksPtr

pub data RequestPtr : Type 0 where
  first : BlocksPtr → RequestPtr
  later : RequestPtr → RequestPtr

abbrev pub max_collect_depth : ℕ
max_collect_depth = 16

-- collectImageBlocks, and its loop over the nested content
unfoldable mutual
  pub collect_block : Block → ℕ → List BlockPtr
  collect_block (block n bs) depth =
      let nested = map inside (collect_blocks bs (suc depth)) in
      if is_image n
      then self ∷ []
      else if is_tool_result n && ltb depth max_collect_depth
      then nested
      else []

  pub collect_blocks : Blocks → ℕ → List BlocksPtr
  collect_blocks nil depth = []
  collect_blocks (cons b bs) depth =
      map head (collect_block b depth) ++ map next (collect_blocks bs depth)

unfoldable pub find_image_blocks : List Message → List RequestPtr
find_image_blocks [] = []
find_image_blocks (m ∷ ms) =
    (if str_eq m.role "user" then map first (collect_blocks m.content 0) else [])
    ++ map later (find_image_blocks ms)

-- *ptr
unfoldable mutual
  pub node_block : BlockPtr → Block → Option Node
  node_block self (block n bs) = some n
  node_block (inside p) (block n bs) = node_blocks p bs

  pub node_blocks : BlocksPtr → Blocks → Option Node
  node_blocks p nil = none
  node_blocks (head p) (cons b bs) = node_block p b
  node_blocks (next p) (cons b bs) = node_blocks p bs

unfoldable pub node_at : RequestPtr → List Message → Option Node
node_at p [] = none
node_at (first p) (m ∷ ms) = node_blocks p m.content
node_at (later p) (m ∷ ms) = node_at p ms

-- *ptr = f(*ptr)
unfoldable mutual
  pub update_block : BlockPtr → (Node → Node) → Block → Block
  update_block self f (block n bs) = block (f n) bs
  update_block (inside p) f (block n bs) = block n (update_blocks p f bs)

  pub update_blocks : BlocksPtr → (Node → Node) → Blocks → Blocks
  update_blocks p f nil = nil
  update_blocks (head p) f (cons b bs) = cons (update_block p f b) bs
  update_blocks (next p) f (cons b bs) = cons b (update_blocks p f bs)

unfoldable pub update_at : RequestPtr → (Node → Node) → List Message → List Message
update_at p f [] = []
update_at (first p) f (m ∷ ms) = record m { content = update_blocks p f m.content } ∷ ms
update_at (later p) f (m ∷ ms) = m ∷ update_at p f ms
