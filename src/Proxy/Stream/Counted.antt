-- ===== src/Proxy/Stream/Counted.antt =====
-- The events of a stream that is written in pieces.
use blind_llm_eyes.Base.{
  ℕ, ◌+◌, ◌≡◌, refl, sym, ap, ◌∙◌, ◌≢◌, inl, inr, Bool, true, false, Option, none, some, List, [],
  ◌∷◌, ◌++◌, map, arith, ◌==◌, Bool-cases, length, length-append, branches, take, ap₂,
}
use mathlib.Core.List.{append-nil, append_assoc}
use blind_llm_eyes.Proxy.Stream.{
  SseEvent, event_of, counted, is_named, split_lines, onto_first, scan_lines, scan_sse_events,
  CountWriter, write,
}

onto_first-append :
    (b : ℕ) (xs ys : List (List ℕ)) → xs ≢ [] → onto_first b (xs ++ ys) ≡ onto_first b xs ++ ys
onto_first-append b [] ys h = absurd (h refl)
onto_first-append b (x ∷ xs) ys h = refl

onto_first-ne-nil : (b : ℕ) (xs : List (List ℕ)) → onto_first b xs ≢ []
onto_first-ne-nil b [] e = cc
onto_first-ne-nil b (x ∷ xs) e = cc

split_lines-ne-nil : (p : List ℕ) → split_lines p ≢ []
unfolding split_lines
split_lines-ne-nil [] = λ e. cc
split_lines-ne-nil (b ∷ bs) =
    branches (λ ls. ls ≢ []) (b == 10) ([] ∷ split_lines bs) (onto_first b (split_lines bs))
      (λ e. cc) (onto_first-ne-nil b (split_lines bs))

-- A line break ends a line.
split_lines-append : (p q : List ℕ) → split_lines (p ++ 10 ∷ q) ≡ split_lines p ++ split_lines q
unfolding split_lines
split_lines-append [] q = refl
split_lines-append (b ∷ bs) q = elim (Bool-cases (b == 10)) [
  | inl e ↦ rw e (ap (λ ls. [] ∷ ls) (split_lines-append bs q))
  | inr e ↦ rw e (
      ap (onto_first b) (split_lines-append bs q)
      ∙ onto_first-append b (split_lines bs) (split_lines q) (split_lines-ne-nil bs))
]

-- The end of a block.
abbrev pub ended : List ℕ → List ℕ
ended p = p ++ 10 ∷ 10 ∷ []

-- Writes of whole slices, one after the other.
abbrev pub write_all : (List ℕ → List ℕ) → List (List ℕ) → CountWriter → CountWriter
write_all trim_space [] cw = cw
write_all trim_space (p ∷ ps) cw = write_all trim_space ps (write trim_space p (length p) cw)

-- The bytes of the slices that end a block each, and of one more.
abbrev pub stream : List (List ℕ) → List ℕ → List ℕ
stream [] last = last
stream (p ∷ ps) last = ended p ++ stream ps last

take_all : (p : List ℕ) → take (length p) p ≡ p
take_all [] = refl
take_all (b ∷ bs) = ap (λ cs. b ∷ cs) (take_all bs)

abbrev pub add : ℕ → List SseEvent → CountWriter → CountWriter
add n es cw = record { bytes_written = cw.bytes_written + n; events = cw.events ++ es }

add_none : (cw : CountWriter) → cw ≡ add 0 [] cw
add_none cw = ground (arith, append-nil cw.events)

add_twice :
    (m n : ℕ) (ds es : List SseEvent) (cw : CountWriter)
    → add n es (add m ds cw) ≡ add (m + n) (ds ++ es) cw
add_twice m n ds es cw = ground (arith, append_assoc cw.events ds es)

module _ (trim_space : List ℕ → List ℕ) (trim-nil : trim_space [] ≡ []) where
  counted-append :
      (o : Option SseEvent) (es fs : List SseEvent)
      → counted trim_space o (es ++ fs) ≡ counted trim_space o es ++ fs
  counted-append none es fs = refl
  counted-append (some e) es fs = refl

  scan_lines-append :
      (got : Bool) (ls ms : List (List ℕ))
      → scan_lines trim_space got (ls ++ [] ∷ ms)
        ≡ scan_lines trim_space got ls ++ scan_lines trim_space false ms
  unfolding scan_lines
  scan_lines-append got [] ms = rw trim-nil refl
  scan_lines-append true (raw ∷ ls) ms =
      ground (arith, scan_lines-append false ls ms, scan_lines-append true ls ms)
  scan_lines-append false (raw ∷ ls) ms =
      let o = event_of trim_space (trim_space raw) in
      ground (
        arith,
        scan_lines-append false ls ms,
        ap (counted trim_space o) (scan_lines-append (is_named trim_space o) ls ms),
        counted-append o (scan_lines trim_space (is_named trim_space o) ls)
            (scan_lines trim_space false ms),
      )

  scan-nil : scan_sse_events trim_space [] ≡ []
  unfolding scan_sse_events scan_lines split_lines
  scan-nil = rw trim-nil refl

  scan-cut :
      (p q : List ℕ)
      → scan_sse_events trim_space (p ++ 10 ∷ 10 ∷ q)
        ≡ scan_sse_events trim_space p ++ scan_sse_events trim_space q
  unfolding scan_sse_events split_lines
  scan-cut p q =
      ap (scan_lines trim_space false) (split_lines-append p (10 ∷ q))
      ∙ scan_lines-append false (split_lines p) (split_lines q)

  -- A stream may be cut behind the end of a block: no event is lost, and none counted twice.
  scan-ended :
      (p q : List ℕ)
      → scan_sse_events trim_space (ended p ++ q)
        ≡ scan_sse_events trim_space (ended p) ++ scan_sse_events trim_space q
  scan-ended p q =
      ap (scan_sse_events trim_space) (append_assoc p (10 ∷ 10 ∷ []) q)
      ∙ scan-cut p q
      ∙ ap (λ es. es ++ scan_sse_events trim_space q)
          (sym
            (scan-cut p [] ∙ ap (λ es. scan_sse_events trim_space p ++ es) scan-nil ∙ append-nil _))

  write_whole :
      (p : List ℕ) (cw : CountWriter)
      → write trim_space p (length p) cw ≡ add (length p) (scan_sse_events trim_space p) cw
  unfolding write
  write_whole [] cw = rw scan-nil (add_none cw)
  write_whole (b ∷ bs) cw = ground (arith, take_all (b ∷ bs))

  -- If every slice but the last ends a block, and the underlying writer takes each slice whole, the
  -- counters are as if the stream had been written at once: the bytes are all of it, and the events
  -- are those of the whole stream.
  pub write_all-stream :
      (ps : List (List ℕ)) (last : List ℕ) (cw : CountWriter)
      → write_all trim_space (map ended ps ++ last ∷ []) cw
        ≡ add (length (stream ps last)) (scan_sse_events trim_space (stream ps last)) cw
  write_all-stream [] last cw = write_whole last cw
  write_all-stream (p ∷ ps) last cw =
      ap (write_all trim_space (map ended ps ++ last ∷ [])) (write_whole (ended p) cw)
      ∙ write_all-stream ps last _
      ∙ add_twice (length (ended p)) (length (stream ps last)) _ _ cw
      ∙ ap₂ (λ n es. add n es cw) (sym (length-append (ended p) (stream ps last)))
          (sym (scan-ended p (stream ps last)))
