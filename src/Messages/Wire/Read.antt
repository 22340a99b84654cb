-- ===== src/Messages/Wire/Read.antt =====
-- messages/content.go: how a block and the content of a message are read from JSON. What encoding/json
-- makes of bytes and of keys stands in the record Codec; a value has one spelling here, which a block
-- keeps as its raw JSON.
pub mod Back
pub mod Returned
use blind_llm_eyes.Base.{String, Bool, false, Option, none, some, str_eq, if◌then◌else◌}
use blind_llm_eyes.Base.Results.{and_then}
use blind_llm_eyes.Messages.Content.{ImageSource, original, Node, Block, block, Blocks, nil, cons}
use blind_llm_eyes.Messages.Wire.{
  Json, null, bool, text, arr, obj, Items, none_left, item, Fields, end, field,
}

-- The fields of aux and those of ImageSource.
pub data Key : Type 0 where
  type_key text_key source_key content_key is_error_key : Key

pub data SourceKey : Type 0 where
  type_key media_type_key data_key : SourceKey

-- The bytes of a value, the reading of bytes, and which field a key is taken for: the one of its name, or
-- of its name but for the case.
pub record Codec : Type 0 where
  pub text_of : Json → String
  pub parse : String → Option Json
  pub key_of : String → Option Key
  pub source_key_of : String → Option SourceKey

pub record Aux : Type 0 where
  pub typ : String
  pub text : String
  pub source : Option ImageSource
  pub content : Blocks
  pub is_error : Bool

abbrev pub zero_aux : Aux
zero_aux = record { typ = ""; text = ""; source = none; content = nil; is_error = false }

abbrev pub zero_source : ImageSource
zero_source = record { typ = ""; media_type = ""; base64_data = "" }

-- A value into a string or a bool: null leaves what is there.
abbrev pub read_string : Json → String → Option String
read_string null old = some old
read_string (text s) old = some s
read_string j old = none

abbrev pub read_bool : Json → Bool → Option Bool
read_bool null old = some old
read_bool (bool b) old = some b
read_bool j old = none

abbrev pub set_source_field : Option SourceKey → String → ImageSource → ImageSource
set_source_field none t s = s
set_source_field (some type_key) t s = record s { typ = t }
set_source_field (some media_type_key) t s = record s { media_type = t }
set_source_field (some data_key) t s = record s { base64_data = t }

abbrev pub old_text : Option SourceKey → ImageSource → String
old_text none s = ""
old_text (some type_key) s = s.typ
old_text (some media_type_key) s = s.media_type
old_text (some data_key) s = s.base64_data

abbrev pub read_source_field : Option SourceKey → Json → ImageSource → Option ImageSource
read_source_field none v s = some s
read_source_field (some k) v s =
    and_then (read_string v (old_text (some k) s)) (λ t. some (set_source_field (some k) t s))

-- A block that a text stands for, in content that is a text.
abbrev pub text_node : String → Node
text_node s = record { raw = none; typ = "text"; text = s; source = none; is_error = false }

abbrev pub of_text : String → Blocks
of_text s = if str_eq s "" then nil else cons (block (text_node s) nil) nil

abbrev pub node_of : String → Aux → Node
node_of raw a = record {
  raw = some (original raw);
  typ = a.typ;
  text = a.text;
  source = a.source;
  is_error = a.is_error;
}

abbrev pub cons_block : Option Block → Option Blocks → Option Blocks
cons_block (some b) (some bs) = some (cons b bs)
cons_block (some b) none = none
cons_block none bs = none

module _ (codec : Codec) where
  open codec use {text_of, key_of, source_key_of}

  unfoldable pub read_source_fields : Fields → ImageSource → Option ImageSource
  read_source_fields end s = some s
  read_source_fields (field k v fs) s =
      and_then (read_source_field (source_key_of k) v s) (λ t. read_source_fields fs t)

  abbrev pub old_source : Option ImageSource → ImageSource
  old_source none = zero_source
  old_source (some s) = s

  -- A value into *ImageSource: an object goes into the struct that is there.
  abbrev pub read_source : Json → Option ImageSource → Option (Option ImageSource)
  read_source null old = some none
  read_source (obj fs) old = and_then (read_source_fields fs (old_source old)) (λ s. some (some s))
  read_source j old = none

  -- `content` is what the value is as content.
  abbrev pub read_field : Option Key → Json → (content : Option Blocks) → Aux → Option Aux
  read_field none v content a = some a
  read_field (some type_key) v content a =
      and_then (read_string v a.typ) (λ t. some (record a { typ = t }))
  read_field (some text_key) v content a =
      and_then (read_string v a.text) (λ t. some (record a { text = t }))
  read_field (some source_key) v content a =
      and_then (read_source v a.source) (λ s. some (record a { source = s }))
  read_field (some content_key) v content a =
      and_then content (λ bs. some (record a { content = bs }))
  read_field (some is_error_key) v content a =
      and_then (read_bool v a.is_error) (λ b. some (record a { is_error = b }))

  abbrev pub block_of : String → Option Aux → Option Block
  block_of raw a = and_then a (λ x. some (block (node_of raw x) x.content))

  -- The two methods UnmarshalJSON, the second of MessageContent and of SystemContent.
  unfoldable mutual
    pub unmarshal_block : Json → Option Block
    unmarshal_block null = some (block (node_of (text_of null) zero_aux) nil)
    unmarshal_block (obj fs) = block_of (text_of (obj fs)) (read_fields fs zero_aux)
    unmarshal_block j = none

    pub read_fields : Fields → Aux → Option Aux
    read_fields end a = some a
    read_fields (field k v fs) a =
        and_then (read_field (key_of k) v (unmarshal_content v) a) (λ b. read_fields fs b)

    pub unmarshal_content : Json → Option Blocks
    unmarshal_content null = some nil
    unmarshal_content (text s) = some (of_text s)
    unmarshal_content (arr js) = unmarshal_items js
    unmarshal_content j = none

    pub unmarshal_items : Items → Option Blocks
    unmarshal_items none_left = some nil
    unmarshal_items (item j js) = cons_block (unmarshal_block j) (unmarshal_items js)
