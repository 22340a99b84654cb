-- ===== src/Tests/Logging.antt =====
-- A log with room for one entry, and three calls of Write.
use blind_llm_eyes.Base.{◌≡◌, refl, true, [], ◌∷◌}
use mathlib.Core.Quot
use blind_llm_eyes.Logging.{
  AsyncWriter, new_async_writer, write_start, write_select, write_direct, write_loop, close_start,
  close_channel, starts, selects, writes, loops, closes, shuts, Reach, opened, later, WhenQuiet,
}
use blind_llm_eyes.Logging.Kept.{Log}
use blind_llm_eyes.Logging.Closed.{closed_log}

-- The first entry is queued, the second finds the channel full, and the third finds the log closed.
abbrev three_lines : AsyncWriter
three_lines = record (new_async_writer 1) {
  ch_closed = true;
  closed = true;
  done = true;
  out = "b" ∷ "c" ∷ "a" ∷ [];
  calls = "c" ∷ "b" ∷ "a" ∷ [];
}

three_lines_Reach : Reach WhenQuiet 1 three_lines
unfolding new_async_writer write_start write_select write_direct write_loop close_start
    close_channel
three_lines_Reach =
    later
      (later
        (later
          (later
            (later
              (later
                (later
                  (later
                    (later
                      (later (later (later opened (starts "a")) (selects "a" [] [] refl))
                        (starts "b"))
                      (selects "b" [] [] refl))
                    (writes "b" [] [] refl))
                  closes)
                (starts "c"))
              (shuts refl refl refl))
            (writes "c" [] [] refl))
          loops)
        loops)
      loops

closed_log_example :
    (three_lines.lost ≡ []) × (◌≡◌ {A = Log} (Quot.mk three_lines.calls) (Quot.mk three_lines.out))
unfolding new_async_writer
closed_log_example = closed_log three_lines_Reach refl refl

abbrev shut : AsyncWriter
shut = record (new_async_writer 2) {
  ch = "a" ∷ "b" ∷ [];
  ch_closed = true;
  closed = true;
  calls = "b" ∷ "a" ∷ [];
}
