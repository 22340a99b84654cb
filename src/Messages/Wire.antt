-- ===== src/Messages/Wire.antt =====
-- messages/content.go: the JSON that a block is written as. The reading of the raw JSON of a block is a
-- parameter. The order of the keys of an object that is written anew is left out, and content that is
-- empty is nil here, which is written as null.
pub mod Merged
pub mod Read
use blind_llm_eyes.Base.{String, Bool, true, false, Option, none, some, str_eq, if◌then◌else◌}
use blind_llm_eyes.Base.Results.{and_then}
use blind_llm_eyes.Messages.Content.{
  ImageSource, Raw, original, text_object, Node, Block, block, Blocks, nil, cons, is_tool_result,
}

mutual
  pub data Json : Type 0 where
    null : Json
    bool : Bool → Json
    num : String → Json
    text : String → Json
    arr : Items → Json
    obj : Fields → Json

  pub data Items : Type 0 where
    none_left : Items
    item : Json → Items → Items

  pub data Fields : Type 0 where
    end : Fields
    field : String → Json → Fields → Fields

abbrev pub later_or : Option Json → Option Json → Option Json
later_or a none = a
later_or a (some b) = some b

-- What an object has under a key: the last of its values counts.
unfoldable pub lookup : String → Fields → Option Json
lookup k end = none
lookup k (field l v fs) = later_or (if str_eq l k then some v else none) (lookup k fs)

abbrev pub add_new : Option Json → String → Json → Fields → Fields
add_new none k v fs = field k v fs
add_new (some w) k v fs = fs

-- The map that an object is read into, which has each key once.
unfoldable pub to_map : Fields → Fields
to_map end = end
to_map (field k v fs) = add_new (lookup k fs) k v (to_map fs)

unfoldable pub without : String → Fields → Fields
without k end = end
without k (field l v fs) = let rest = without k fs in if str_eq l k then rest else field l v rest

-- raw[k] = v
abbrev pub put : String → Json → Fields → Fields
put k v fs = field k v (without k fs)

abbrev pub string_field : String → String → Fields → Fields
string_field k v fs = if str_eq v "" then fs else field k (text v) fs

abbrev pub source_fields : Option ImageSource → Fields
source_fields none = end
source_fields (some s) =
    field "source"
      (obj (
        field "type" (text s.typ)
          (field "media_type" (text s.media_type) (field "data" (text s.base64_data) end))))
      end

abbrev pub content_json : Bool → Items → Json
content_json empty xs = if empty then null else arr xs

abbrev pub error_field : Bool → Fields
error_field is_error = if is_error then field "is_error" (bool true) end else end

-- marshalFromFields
abbrev pub tool_result_fields : Node → Bool → Items → Json
tool_result_fields n empty xs =
    obj
      (field "type" (text n.typ) (field "content" (content_json empty xs) (error_field n.is_error)))

abbrev pub marshal_from_fields : Node → Bool → Option Items → Option Json
marshal_from_fields n empty inner =
    if is_tool_result n
    then and_then inner (λ xs. some (tool_result_fields n empty xs))
    else some
        (obj (field "type" (text n.typ) (string_field "text" n.text (source_fields n.source))))

abbrev pub is_empty : Blocks → Bool
is_empty nil = true
is_empty (cons b bs) = false

abbrev pub is_blank : Raw → Bool
is_blank (original s) = str_eq s ""
is_blank (text_object s) = false

-- The content of a tool_result takes the place of what the raw JSON has for it.
abbrev pub with_content : Bool → Fields → Option Items → Option Json
with_content empty fs inner =
    if empty
    then some (obj (to_map fs))
    else and_then inner (λ xs. some (obj (put "content" (arr xs) (to_map fs))))

-- A write to the map that null is read into panics, which is no result.
abbrev pub merge : Node → Bool → Option Items → Option Json → Option Json
merge n empty inner none = marshal_from_fields n empty inner
merge n empty inner (some null) = if empty then some null else none
merge n empty inner (some (obj fs)) = with_content empty fs inner
merge n empty inner (some j) = marshal_from_fields n empty inner

module _ (parse : String → Option Json) where
  abbrev pub raw_json : Raw → Option Json
  raw_json (original s) = parse s
  raw_json (text_object s) = some (obj (field "type" (text "text") (field "text" (text s) end)))

  abbrev pub marshal_raw : Node → Bool → Option Items → Option Raw → Option Json
  marshal_raw n empty inner none = marshal_from_fields n empty inner
  marshal_raw n empty inner (some r) =
      if is_blank r
      then marshal_from_fields n empty inner
      else if is_tool_result n
      then merge n empty inner (raw_json r)
      else raw_json r

  abbrev pub cons_item : Option Json → Option Items → Option Items
  cons_item (some j) (some js) = some (item j js)
  cons_item (some j) none = none
  cons_item none js = none

  -- MarshalJSON; `none` is an error.
  unfoldable mutual
    pub marshal_json : Block → Option Json
    marshal_json (block n bs) =
        let inner = marshal_blocks bs in marshal_raw n (is_empty bs) inner n.raw

    pub marshal_blocks : Blocks → Option Items
    marshal_blocks nil = some none_left
    marshal_blocks (cons b bs) = cons_item (marshal_json b) (marshal_blocks bs)
