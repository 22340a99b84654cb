-- ===== src/Base/Clock.antt =====
-- Go's clock as a number of nanoseconds that each call is given. The zero `time.Time` is `none`.
use Prim.Native.Nat.{ℕ, ◌-◌}
use mathlib.Core.Option.{Option, none, some}

-- the largest `time.Duration`, at which a difference of two times saturates
abbrev pub max_duration : ℕ
max_duration = 9223372036854775807

-- time.Since(t): since the zero time it saturates.
abbrev pub since : ℕ → Option ℕ → ℕ
since now none = max_duration
since now (some t) = now - t
