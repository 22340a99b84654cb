-- ===== src/Tests/Stream.antt =====
-- A stream of events in two writes.
use blind_llm_eyes.Base.{ℕ, ◌≡◌, refl, List, [], ◌∷◌, ◌++◌, ◌==◌, if◌then◌else◌}
use blind_llm_eyes.Proxy.Stream.{
  error, other, CountWriter, scan_sse_events, scan_lines, split_lines, event_of, event_label,
  cut_prefix,
}
use blind_llm_eyes.Proxy.Stream.Blocks.{blocks, events_of, scan_sse_events-blocks}
use blind_llm_eyes.Proxy.Stream.Counted.{ended, stream, write_all, write_all-stream}

-- Spaces before the line go.
trim_left : List ℕ → List ℕ
trim_left [] = []
trim_left (b ∷ bs) = if b == 32 then trim_left bs else b ∷ bs

-- "event: ping"
abbrev ping_line : List ℕ
ping_line = b'e' ∷ b'v' ∷ b'e' ∷ b'n' ∷ b't' ∷ b':' ∷ 32 ∷ b'p' ∷ b'i' ∷ b'n' ∷ b'g' ∷ []

-- "event:error"
abbrev error_line : List ℕ
error_line = b'e' ∷ b'v' ∷ b'e' ∷ b'n' ∷ b't' ∷ b':' ∷ b'e' ∷ b'r' ∷ b'r' ∷ b'o' ∷ b'r' ∷ []

-- "data: x", a block without an event, is not counted.
abbrev data_line : List ℕ
data_line = b'd' ∷ b'a' ∷ b't' ∷ b'a' ∷ b':' ∷ 32 ∷ b'x' ∷ []

two_of_three :
    scan_sse_events trim_left (ended ping_line ++ (ended data_line ++ error_line))
    ≡ other ∷ error ∷ []
unfolding scan_sse_events scan_lines split_lines event_of event_label cut_prefix trim_left
two_of_three = refl

scan_sse_events-blocks_example :
    scan_sse_events trim_left (ended ping_line ++ error_line)
    ≡ events_of trim_left (blocks trim_left [] (split_lines (ended ping_line ++ error_line)))
scan_sse_events-blocks_example = scan_sse_events-blocks trim_left (ended ping_line ++ error_line)

abbrev fresh : CountWriter
fresh = record { bytes_written = 0; events = [] }

trim-nil : trim_left [] ≡ []
unfolding trim_left
trim-nil = refl

write_all-stream_example : write_all trim_left (ended ping_line ∷ error_line ∷ []) fresh ≡ record {
  bytes_written = 24;
  events = scan_sse_events trim_left (stream (ping_line ∷ []) error_line);
}
write_all-stream_example = write_all-stream trim_left trim-nil (ping_line ∷ []) error_line fresh
