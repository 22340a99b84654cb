-- ===== src/Tests/Wire.antt =====
-- The JSON of a result of a tool, in which an image has become a text.
use blind_llm_eyes.Base.{String, ◌≡◌, refl, false, Option, none, some, str_eq, if◌then◌else◌}
use blind_llm_eyes.Messages.Content.{
  Blocks, original, text_object, Node, Block, block, nil, cons, is_tool_result,
}
use blind_llm_eyes.Messages.Wire.{
  Json, none_left, item, Fields, end, field, obj, arr, text, marshal_json, lookup, to_map, without,
}
use blind_llm_eyes.Messages.Wire.Read.{
  Codec, Key, type_key, content_key, text_node, unmarshal_content,
}
use blind_llm_eyes.Messages.Wire.Read.Back.{IsSpelled, ContentBack}
use blind_llm_eyes.Messages.Wire.Read.Returned.{unmarshal_content-Back}
use blind_llm_eyes.Messages.Wire.Merged.{IsReadable, Written, marshal_json-Written}
use blind_llm_eyes.Base.Results.{and_then}

abbrev came_in : Fields
came_in =
    field "type" (text "tool_result") (
      field "tool_use_id" (text "t1")
        (field "content" (arr (item (text "an image") none_left)) end))

abbrev parse : String → Option Json
parse s = if str_eq s "{…}" then some (obj came_in) else none

abbrev described : Node
described = record {
  raw = some (text_object "a cat");
  typ = "text";
  text = "a cat";
  source = none;
  is_error = false;
}

abbrev result : Block
result =
    block
      (record {
        raw = some (original "{…}");
        typ = "tool_result";
        text = "";
        source = none;
        is_error = false;
      })
      (cons (block described nil) nil)

abbrev cat : Fields
cat = field "type" (text "text") (field "text" (text "a cat") end)

is_readable : IsReadable parse result
unfolding IsReadable
is_readable = (
  (original "{…}", came_in, (refl, refl, refl)),
  (((text_object "a cat", cat, (refl, refl, refl)), tt), tt),
)

marshal_json-Written_example : Written parse result
marshal_json-Written_example = marshal_json-Written parse result is_readable

keeps_id :
    marshal_json parse result
    ≡ some (
        obj (
          field "content"
            (arr (item (obj cat) none_left))
            (field "type" (text "tool_result") (field "tool_use_id" (text "t1") end))))
unfolding marshal_json is_tool_result lookup to_map without and_then
keeps_id = refl

-- A result of a tool with a text for its content.
abbrev with_text : Fields
with_text =
    field "type" (text "tool_result")
      (field "tool_use_id" (text "t1") (field "content" (text "done") end))

abbrev key_of_name : String → Option Key
key_of_name k =
    if str_eq k "type" then some type_key else if str_eq k "content" then some content_key else none

abbrev codec : Codec
codec = record {
  text_of = λ j. "{…}";
  parse = λ s. some (obj with_text);
  key_of = key_of_name;
  source_key_of = λ k. none;
}

abbrev content : Json
content = arr (item (obj with_text) none_left)

abbrev read_node : Node
read_node = record {
  raw = some (original "{…}");
  typ = "tool_result";
  text = "";
  source = none;
  is_error = false;
}

abbrev read : Blocks
read = cons (block read_node (cons (block (text_node "done") nil) nil)) nil

is_spelled : IsSpelled codec content
unfolding IsSpelled
is_spelled = (((refl, refl), (tt, (tt, (tt, tt)))), tt)

reads : unmarshal_content codec content ≡ some read
unfolding unmarshal_content and_then
reads = refl

unmarshal_content-Back_example : ContentBack codec content read
unmarshal_content-Back_example = unmarshal_content-Back codec content read is_spelled reads
