-- ===== src/Logging.antt =====
-- logging/logging.go: AsyncWriter. The goroutines that are in Write stand in two lists, by how far
-- they have come; writeLoop and the first Close are one goroutine each. What is done under a mutex, and
-- a send or receive, is one step. The output takes what it is given: errors of out.Write are left out.
-- The channel has room for buf_size entries, and buf_size is positive.
pub mod Kept
pub mod Closed
use blind_llm_eyes.Base.{
  ℕ, String, Bool, true, false, ltb, if◌then◌else◌, ◌≡◌, Option, none, some, List, [], ◌∷◌, ◌++◌,
  length, str_eq,
}

-- `offering`: behind the test of closed, before the select. `direct`: before the call of out.Write.
-- `hand` is the entry of writeLoop, and `lost` the entries whose send has panicked. `calls` are the
-- entries of all calls of Write so far.
pub record AsyncWriter : Type 0 where
  pub buf_size : ℕ
  pub ch : List String
  pub ch_closed : Bool
  pub closed : Bool
  pub done : Bool
  pub hand : Option String
  pub out : List String
  pub offering : List String
  pub direct : List String
  pub lost : List String
  pub calls : List String

unfoldable pub new_async_writer : ℕ → AsyncWriter
new_async_writer buf_size = record {
  buf_size = buf_size;
  ch = [];
  ch_closed = false;
  closed = false;
  done = false;
  hand = none;
  out = [];
  offering = [];
  direct = [];
  lost = [];
  calls = [];
}

-- Write, up to the release of mu
unfoldable pub write_start : String → AsyncWriter → AsyncWriter
write_start p w =
    if w.closed
    then record w { calls = p ∷ w.calls; direct = p ∷ w.direct }
    else record w { calls = p ∷ w.calls; offering = p ∷ w.offering }

-- The select of Write, where `rest` are the other goroutines before it. To send on a closed channel
-- panics.
unfoldable pub write_select : String → (rest : List String) → AsyncWriter → AsyncWriter
write_select p rest w =
    if w.ch_closed
    then record w { offering = rest; lost = p ∷ w.lost }
    else if ltb (length w.ch) w.buf_size
    then record w { offering = rest; ch = w.ch ++ p ∷ [] }
    else record w { offering = rest; direct = p ∷ w.direct }

-- out.Write under outMu
unfoldable pub write_direct : String → (rest : List String) → AsyncWriter → AsyncWriter
write_direct p rest w = record w { direct = rest; out = w.out ++ p ∷ [] }

abbrev receive : List String → AsyncWriter → AsyncWriter
receive [] w = if w.ch_closed then record w { done = true } else w
receive (p ∷ ps) w = record w { ch = ps; hand = some p }

abbrev loop_with : Option String → AsyncWriter → AsyncWriter
loop_with (some p) w = record w { hand = none; out = w.out ++ p ∷ [] }
loop_with none w = receive w.ch w

-- The next step of writeLoop: it writes the entry that it has, or receives one, or ends.
unfoldable pub write_loop : AsyncWriter → AsyncWriter
write_loop w = loop_with w.hand w

-- Close, up to the release of mu
unfoldable pub close_start : AsyncWriter → AsyncWriter
close_start w = record w { closed = true }

-- close(w.ch)
unfoldable pub close_channel : AsyncWriter → AsyncWriter
close_channel w = record w { ch_closed = true }

-- What any goroutine may do next. `May` says of a state whether the channel may be closed in it.
pub data Step (May : AsyncWriter → Type 0) (w : AsyncWriter) : AsyncWriter → Type 0 where
  starts : (p : String) → Step May w (write_start p w)
  selects :
      (p : String) (xs ys : List String)
      → w.offering ≡ xs ++ p ∷ ys
      → Step May w (write_select p (xs ++ ys) w)
  writes :
      (p : String) (xs ys : List String)
      → w.direct ≡ xs ++ p ∷ ys
      → Step May w (write_direct p (xs ++ ys) w)
  loops : Step May w (write_loop w)
  closes : Step May w (close_start w)
  shuts : w.closed ≡ true → w.ch_closed ≡ false → May w → Step May w (close_channel w)

pub data Reach (May : AsyncWriter → Type 0) (buf_size : ℕ) : AsyncWriter → Type 0 where
  opened : Reach May buf_size (new_async_writer buf_size)
  later : {v w : AsyncWriter} → Reach May buf_size v → Step May v w → Reach May buf_size w

-- Close closes the channel at any time.
abbrev pub AnyTime : AsyncWriter → Type 0
AnyTime w = Unit

-- Close closes the channel when no Write is between its test and its select.
abbrev pub WhenQuiet : AsyncWriter → Type 0
WhenQuiet w = w.offering ≡ []

-- slog.Level
pub data Level : Type 0 where
  level_debug level_info level_warn level_error : Level

-- The switch of NewLoggerWithWriter.
unfoldable pub level_of : (to_lower : String → String) → String → Level
level_of to_lower level =
    if str_eq (to_lower level) "debug"
    then level_debug
    else if str_eq (to_lower level) "warn"
    then level_warn
    else if str_eq (to_lower level) "error"
    then level_error
    else level_info
