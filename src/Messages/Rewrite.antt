-- ===== src/Messages/Rewrite.antt =====
-- messages/rewrite.go: the text that stands for an image, and the system messages that go to the
-- system field.
use Prim.Native.String.{◌++◌ as append}
use blind_llm_eyes.Base.{ℕ, suc, String, str_eq, if◌then◌else◌, ltb, none, some, List, [], ◌∷◌}
use blind_llm_eyes.Messages.Content.{text_object, Node, Blocks, Message, Request, append_blocks}

abbrev pub image_description_marker : String
image_description_marker = "BLIND_LLM_EYES_IMAGE"

abbrev pub instruction : String
instruction =
    "This is an image the user sent. Treat the following description as your own visual observation of the image — do NOT say you cannot see it, do NOT invent missing details. If the description is insufficient to answer a question, say the information is not enough and ask for the original image.\n"

unfoldable pub wrap_image_description : String → String
wrap_image_description description = append "<" (
    append image_description_marker (
      append ">" (
        append instruction
          (append description (append "\n</" (append image_description_marker ">"))))))

-- ReplaceImageWithDescription. The JSON of an object of two strings can always be written, so it
-- does not fail.
unfoldable pub replace_image : String → Node → Node
replace_image description n = record n {
  typ = "text";
  text = wrap_image_description description;
  source = none;
  raw = some (text_object (wrap_image_description description));
}

-- The loop of NormalizeSystemMessages: the system field, the messages that stay, and the number of
-- those that were moved.
pub record Normalized : Type 0 where
  pub system : Blocks
  pub filtered : List Message
  pub moved : ℕ

abbrev keep : Message → Normalized → Normalized
keep m r = record r { filtered = m ∷ r.filtered }

abbrev move : Normalized → Normalized
move r = record r { moved = suc r.moved }

unfoldable pub normalize_loop : Blocks → List Message → Normalized
normalize_loop system [] = record { system = system; filtered = []; moved = 0 }
normalize_loop system (m ∷ ms) =
    let moved = move (normalize_loop (append_blocks system m.content) ms) in
    let kept = keep m (normalize_loop system ms) in if str_eq m.role "system" then moved else kept

unfoldable pub normalize_system_messages : Request → Request × ℕ
normalize_system_messages r =
    let n = normalize_loop r.system r.messages in
    (
      record r { system = n.system; messages = if ltb 0 n.moved then n.filtered else r.messages },
      n.moved,
    )
