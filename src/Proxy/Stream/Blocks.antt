-- ===== src/Proxy/Stream/Blocks.antt =====
-- The events that are counted, by the blocks of the stream.
use blind_llm_eyes.Base.{
  ℕ, ◌≡◌, refl, sym, ap, ◌∙◌, inl, inr, true, Option, none, some, List, [], ◌∷◌, ◌++◌,
  if◌then◌else◌, Bool-cases,
}
use blind_llm_eyes.Proxy.Stream.{
  SseEvent, is_blank, event_of, counted, is_named, split_lines, scan_lines, scan_sse_events,
}

abbrev pub first_of : Option SseEvent → Option SseEvent → Option SseEvent
first_of none o = o
first_of (some e) o = some e

first_of_assoc : (a b c : Option SseEvent) → first_of a (first_of b c) ≡ first_of (first_of a b) c
first_of_assoc none b c = refl
first_of_assoc (some e) b c = refl

first_of-none : (o : Option SseEvent) → first_of o none ≡ o
first_of-none none = refl
first_of-none (some e) = refl

module _ (trim_space : List ℕ → List ℕ) where
  -- The blocks between the blank lines, behind the lines `current` of the first of them.
  abbrev pub blocks : (current : List (List ℕ)) → List (List ℕ) → List (List (List ℕ))
  blocks current [] = current ∷ []
  blocks current (raw ∷ lines) =
      let next = blocks [] lines in
      let more = blocks (current ++ trim_space raw ∷ []) lines in
      if is_blank (trim_space raw) then current ∷ next else more

  -- The event of the first line that names one.
  abbrev pub event_of_block : List (List ℕ) → Option SseEvent
  event_of_block [] = none
  event_of_block (line ∷ lines) = first_of (event_of trim_space line) (event_of_block lines)

  abbrev pub events_of : List (List (List ℕ)) → List SseEvent
  events_of [] = []
  events_of (b ∷ bs) = counted trim_space (event_of_block b) (events_of bs)

  event_of_block-append :
      (ls : List (List ℕ)) (line : List ℕ)
      → event_of_block (ls ++ line ∷ []) ≡ first_of (event_of_block ls) (event_of trim_space line)
  event_of_block-append [] line = first_of-none _
  event_of_block-append (l ∷ ls) line =
      ap (first_of (event_of trim_space l)) (event_of_block-append ls line)
      ∙ first_of_assoc (event_of trim_space l) (event_of_block ls) (event_of trim_space line)

  -- A line that is not blank, where the block has the event `got` so far.
  next_line :
      (got event : Option SseEvent) (lines : List (List ℕ))
      → counted trim_space
          (first_of got event)
          (scan_lines trim_space (is_named trim_space (first_of got event)) lines)
        ≡ counted trim_space got (
            if is_named trim_space got
            then scan_lines trim_space true lines
            else counted trim_space event (scan_lines trim_space (is_named trim_space event) lines))
  next_line none event lines = refl
  next_line (some e) event lines = refl

  scan_lines-blocks :
      (current lines : List (List ℕ))
      → events_of (blocks current lines)
        ≡ counted trim_space
            (event_of_block current)
            (scan_lines trim_space (is_named trim_space (event_of_block current)) lines)
  unfolding scan_lines
  scan_lines-blocks current [] = refl
  scan_lines-blocks current (raw ∷ lines) = elim (Bool-cases (is_blank (trim_space raw))) [
    | inl e ↦ rw e (ap (counted trim_space (event_of_block current)) (scan_lines-blocks [] lines))
    | inr e ↦ rw e (
        scan_lines-blocks (current ++ trim_space raw ∷ []) lines
        ∙ ap (λ o. counted trim_space o (scan_lines trim_space (is_named trim_space o) lines))
            (event_of_block-append current (trim_space raw))
        ∙ next_line (event_of_block current) (event_of trim_space (trim_space raw)) lines)
  ]

  -- A write counts one event for each block in it that names one, and that is the first that the block
  -- names; a block that names none counts for none.
  pub scan_sse_events-blocks :
      (p : List ℕ) → scan_sse_events trim_space p ≡ events_of (blocks [] (split_lines p))
  unfolding scan_sse_events
  scan_sse_events-blocks p = sym (scan_lines-blocks [] (split_lines p))
