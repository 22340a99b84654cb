-- ===== src/Messages/Validate.antt =====
-- messages/validate.go: each error is a constructor with the position that its message names.
use blind_llm_eyes.Base.{
  ℕ, suc, ℤ, pos, negsuc, String, str_eq, Bool, true, false, not, ◌&&◌, ◌||◌, ◌==◌, leb,
  if◌then◌else◌, Option, none, some, List, [], ◌∷◌,
}
use blind_llm_eyes.Messages.Content.{ImageSource, Node, Blocks, block, nil, cons, Message, Request}
use Prim.Native.Char.{code}
use Prim.Native.String.{[] as empty, ◌∷◌ as ◌∷ₛ◌}
use text.Mathlib.Text.{starts_with}

pub data SourceError : Type 0 where
  no_type bad_type no_media_type bad_media_type no_data only_whitespace data_prefix : SourceError

pub data BlockError : Type 0 where
  no_block_type empty_text no_source : BlockError
  bad_source : SourceError → BlockError

pub data MessageError : Type 0 where
  no_role bad_role no_content : MessageError
  bad_block : ℕ → BlockError → MessageError

pub data RequestError : Type 0 where
  no_model no_messages negative_max_tokens : RequestError
  bad_message : ℕ → MessageError → RequestError

-- unicode.IsSpace
abbrev is_space : ℕ → Bool
is_space c =
    (leb 9 c && leb c 13)
    || c == 32
    || c == 133
    || c == 160
    || c == 5760
    || (leb 8192 c && leb c 8202)
    || c == 8232
    || c == 8233
    || c == 8239
    || c == 8287
    || c == 12288

abbrev trim_left : String → String
trim_left empty = ""
trim_left (c ∷ₛ s) = let rest = trim_left s in if is_space (code c) then rest else c ∷ₛ s

abbrev trim_right : String → String
trim_right empty = ""
trim_right (c ∷ₛ s) =
    let rest = trim_right s in if is_space (code c) && str_eq rest "" then "" else c ∷ₛ rest

-- strings.TrimSpace
unfoldable pub trim_space : String → String
trim_space s = trim_right (trim_left s)

unfoldable pub valid_role : String → Bool
valid_role r = str_eq r "user" || str_eq r "assistant"

unfoldable pub valid_media_type : String → Bool
valid_media_type t =
    str_eq t "image/png" || str_eq t "image/jpeg" || str_eq t "image/webp" || str_eq t "image/gif"

unfoldable pub validate_source : ImageSource → Option SourceError
validate_source s =
    if str_eq s.typ ""
    then some no_type
    else if not (str_eq s.typ "base64")
    then some bad_type
    else if str_eq s.media_type ""
    then some no_media_type
    else if not (valid_media_type s.media_type)
    then some bad_media_type
    else if str_eq s.base64_data ""
    then some no_data
    else if str_eq (trim_space s.base64_data) ""
    then some only_whitespace
    else if starts_with (trim_space s.base64_data) "data:"
    then some data_prefix
    else none

abbrev pub wrap_source : Option SourceError → Option BlockError
wrap_source none = none
wrap_source (some e) = some (bad_source e)

unfoldable pub validate_image : Option ImageSource → Option BlockError
validate_image none = some no_source
validate_image (some s) = wrap_source (validate_source s)

-- The nested content of a block is not looked at.
unfoldable pub validate_block : Node → Option BlockError
validate_block n =
    if str_eq n.typ ""
    then some no_block_type
    else if str_eq n.typ "text"
    then (if str_eq n.text "" then some empty_text else none)
    else if str_eq n.typ "image"
    then validate_image n.source
    else none

-- for j, blk := range m.Content
unfoldable pub validate_blocks : ℕ → Blocks → Option MessageError
validate_blocks j nil = none
validate_blocks j (cons (block n bs) rest) = elim (validate_block n) [
  | some e ↦ some (bad_block j e)
  | none ↦ validate_blocks (suc j) rest
]

abbrev pub is_nil : Blocks → Bool
is_nil nil = true
is_nil (cons b bs) = false

unfoldable pub validate_message : Message → Option MessageError
validate_message m =
    if str_eq m.role ""
    then some no_role
    else if not (valid_role m.role)
    then some bad_role
    else if is_nil m.content
    then some no_content
    else validate_blocks 0 m.content

-- for i, msg := range r.Messages
unfoldable pub validate_messages : ℕ → List Message → Option RequestError
validate_messages i [] = none
validate_messages i (m ∷ ms) = elim (validate_message m) [
  | some e ↦ some (bad_message i e)
  | none ↦ validate_messages (suc i) ms
]

abbrev pub check_max_tokens : ℤ → Option RequestError
check_max_tokens (pos n) = none
check_max_tokens (negsuc n) = some negative_max_tokens

abbrev pub is_empty {ℓ} : {A : Type ℓ} → List A → Bool
is_empty [] = true
is_empty (x ∷ xs) = false

unfoldable pub validate : Request → Option RequestError
validate r =
    if str_eq r.model ""
    then some no_model
    else if is_empty r.messages
    then some no_messages
    else elim (validate_messages 0 r.messages) [
      | some e ↦ some e
      | none ↦ check_max_tokens r.max_tokens
    ]
