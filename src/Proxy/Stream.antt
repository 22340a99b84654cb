-- ===== src/Proxy/Stream.antt =====
-- proxy/handler.go: countWriter, which counts the bytes of an answer and the SSE events in it. Bytes
-- are numbers. bytes.TrimSpace is a parameter. The metrics are configured.
pub mod Blocks
pub mod Counted
use blind_llm_eyes.Base.{
  ℕ, ◌+◌, Bool, true, false, ◌&&◌, Option, none, some, List, [], ◌∷◌, ◌++◌, ltb, ◌==◌,
  if◌then◌else◌, take,
}

-- The label of SSEEvents.
pub data SseEvent : Type 0 where
  message error other : SseEvent

-- The first line, and what is behind its line break; a slice with no line break is one line.
abbrev onto_first : ℕ → List (List ℕ) → List (List ℕ)
onto_first b [] = (b ∷ []) ∷ []
onto_first b (line ∷ lines) = (b ∷ line) ∷ lines

-- bytes.Split(p, "\n")
unfoldable pub split_lines : List ℕ → List (List ℕ)
split_lines [] = [] ∷ []
split_lines (b ∷ bs) = let rest = split_lines bs in if b == 10 then [] ∷ rest else onto_first b rest

abbrev same_bytes : List ℕ → List ℕ → Bool
same_bytes [] [] = true
same_bytes [] (c ∷ cs) = false
same_bytes (b ∷ bs) [] = false
same_bytes (b ∷ bs) (c ∷ cs) = b == c && same_bytes bs cs

-- What is behind the prefix, if it is there.
unfoldable pub cut_prefix : List ℕ → List ℕ → Option (List ℕ)
cut_prefix [] bs = some bs
cut_prefix (p ∷ ps) [] = none
cut_prefix (p ∷ ps) (b ∷ bs) = let rest = cut_prefix ps bs in if p == b then rest else none

-- "event:", "message" and "error"
abbrev pub event_field : List ℕ
event_field = b'e' ∷ b'v' ∷ b'e' ∷ b'n' ∷ b't' ∷ b':' ∷ []

abbrev message_name : List ℕ
message_name = b'm' ∷ b'e' ∷ b's' ∷ b's' ∷ b'a' ∷ b'g' ∷ b'e' ∷ []

abbrev error_name : List ℕ
error_name = b'e' ∷ b'r' ∷ b'r' ∷ b'o' ∷ b'r' ∷ []

-- switch val
unfoldable pub event_label : List ℕ → SseEvent
event_label val =
    if same_bytes val message_name
    then message
    else if same_bytes val error_name
    then error
    else other

abbrev pub is_blank : List ℕ → Bool
is_blank [] = true
is_blank (b ∷ bs) = false

-- The bytes that the underlying writer took, and the events, oldest first.
pub record CountWriter : Type 0 where
  pub bytes_written : ℕ
  pub events : List SseEvent

module _ (trim_space : List ℕ → List ℕ) where
  -- The event that a line names.
  unfoldable pub event_of : List ℕ → Option SseEvent
  event_of line = elim (cut_prefix event_field line) [
    | none ↦ none
    | some val ↦ some (event_label (trim_space val))
  ]

  abbrev pub counted : Option SseEvent → List SseEvent → List SseEvent
  counted none es = es
  counted (some e) es = e ∷ es

  abbrev pub is_named : Option SseEvent → Bool
  is_named none = false
  is_named (some e) = true

  -- The loop over the lines; `got` is gotEventLabel.
  unfoldable pub scan_lines : Bool → List (List ℕ) → List SseEvent
  scan_lines got [] = []
  scan_lines got (raw ∷ lines) =
      let line = trim_space raw in
      let on_blank = scan_lines false lines in
      let on_event = counted (event_of line) (scan_lines (is_named (event_of line)) lines) in
      let on_more = scan_lines true lines in
      if is_blank line then on_blank else if got then on_more else on_event

  unfoldable pub scan_sse_events : List ℕ → List SseEvent
  scan_sse_events p = scan_lines false (split_lines p)

  -- `n` is what the underlying writer took of the slice.
  unfoldable pub write : List ℕ → (n : ℕ) → CountWriter → CountWriter
  write p n cw =
      if ltb 0 n
      then record cw {
        bytes_written = cw.bytes_written + n;
        events = cw.events ++ scan_sse_events (take n p);
      }
      else cw
