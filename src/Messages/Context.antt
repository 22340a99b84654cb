-- ===== src/Messages/Context.antt =====
-- messages/context.go: the text of the last rounds of the conversation.
use Prim.Native.String.{◌++◌ as append, len}
use blind_llm_eyes.Base.{
  ℕ, suc, ◌+◌, ℤ, pos, String, str_eq, Bool, true, false, not, ◌&&◌, ◌||◌, ltb, leb, if◌then◌else◌,
  Option, none, some, List, [], ◌∷◌, ◌++◌, map,
}
use blind_llm_eyes.Messages.Content.{
  Block, Blocks, block, nil, cons, Message, is_image, is_tool_result, max_collect_depth,
}

-- hasImageRecursive; its walk ends one level above the one of collectImageBlocks.
unfoldable mutual
  pub has_image_recursive : Block → ℕ → Bool
  has_image_recursive (block n bs) depth =
      let nested = any_image bs (suc depth) in
      if leb max_collect_depth depth
      then false
      else if is_image n
      then true
      else is_tool_result n && nested

  pub any_image : Blocks → ℕ → Bool
  any_image nil depth = false
  any_image (cons b bs) depth = has_image_recursive b depth || any_image bs depth

unfoldable pub message_has_image : Message → Bool
unfolding has_image_recursive
message_has_image m = any_image m.content 0

-- collectTextRecursive
unfoldable mutual
  pub collect_text_recursive : Block → ℕ → List String
  collect_text_recursive (block n bs) depth =
      let nested = collect_texts bs (suc depth) in
      if leb max_collect_depth depth
      then []
      else if str_eq n.typ "text" && not (str_eq n.text "")
      then n.text ∷ []
      else if str_eq n.typ "image"
      then []
      else if is_tool_result n
      then nested
      else []

  pub collect_texts : Blocks → ℕ → List String
  collect_texts nil depth = []
  collect_texts (cons b bs) depth = collect_text_recursive b depth ++ collect_texts bs depth

-- strings.Join
unfoldable pub join : String → List String → String
join sep [] = ""
join sep (x ∷ []) = x
join sep (x ∷ (y ∷ ys)) = append x (append sep (join sep (y ∷ ys)))

unfoldable pub extract_message_text : Message → String
unfolding collect_text_recursive
extract_message_text m = join " " (collect_texts m.content 0)

pub record Collected : Type 0 where
  pub role : String
  pub text : String

abbrev pub reverse_onto {ℓ} : {A : Type ℓ} → List A → List A → List A
reverse_onto [] ys = ys
reverse_onto (x ∷ xs) ys = reverse_onto xs (x ∷ ys)

abbrev pub reverse {ℓ} : {A : Type ℓ} → List A → List A
reverse xs = reverse_onto xs []

abbrev format_line : Collected → String
format_line c = append "[" (append c.role (append "] " c.text))

-- The lines kept, on the lines from the last to the first: total is what those before take, and
-- the newest is kept whatever its length.
unfoldable pub keep_lines : (max_chars total : ℕ) → (newest : Bool) → List String → List String
keep_lines max total newest [] = []
keep_lines max total newest (l ∷ ls) =
    let rest = keep_lines max (total + (len l + 1)) false ls in
    if ltb max (total + (len l + 1)) && not newest then [] else l ∷ rest

abbrev exclude_last : List Message → List Message
exclude_last [] = []
exclude_last (m ∷ ms) = if str_eq m.role "user" && message_has_image m then ms else m ∷ ms

abbrev positive : ℤ → Option ℕ
positive (pos (suc n)) = some (suc n)
positive x = none

module _ (to_lower : String → String) where
  -- One message of the walk from the tail; none skips it.
  unfoldable pub collect_message : Message → Option Collected
  collect_message m =
      let role = to_lower m.role in
      let text = extract_message_text m in
      if (str_eq role "user" || str_eq role "assistant") && not (str_eq text "")
      then some (record { role = role; text = text })
      else none

  -- The walk, on the messages from the last to the first.
  unfoldable pub collect_recent : (recent_rounds user_count : ℕ) → List Message → List Collected
  collect_recent rounds users [] = []
  collect_recent rounds users (m ∷ ms) =
      let skipped = collect_recent rounds users ms in
      let counted = collect_recent rounds (suc users) ms in
      elim (collect_message m) [
        | none ↦ skipped
        | some c ↦
            if str_eq c.role "user"
            then (if leb rounds (suc users) then c ∷ [] else c ∷ counted)
            else c ∷ skipped
      ]

  unfoldable pub extract_conversation_context : List Message → ℤ → ℤ → String
  extract_conversation_context messages recent_rounds max_chars = elim (positive recent_rounds) [
    | none ↦ ""
    | some rounds ↦ elim (positive max_chars) [
      | none ↦ ""
      | some chars ↦ join "\n" (
          reverse (
            keep_lines chars 0 true
              (map format_line (collect_recent rounds 0 (exclude_last (reverse messages))))))
    ]
  ]
