-- ===== src/Base/Floats.antt =====
-- Go's float64, which the proxy uses for ratios only, as an interface: the operations that the code
-- calls and what it relies on of IEEE 754 arithmetic and of package math.
use Prim.Native.Nat.{ℕ, ◌≤◌, ◌<◌}
use mathlib.Core.Path.{◌≡◌}
use mathlib.Core.Bool.{Bool, true, false}
use blind_llm_eyes.Base.Tests.{◌==◌}

pub record Floats : Type 1 where
  pub Float : Type 0
  -- <=, <, == and math.IsNaN
  pub le : Float → Float → Bool
  pub lt : Float → Float → Bool
  pub eq : Float → Float → Bool
  pub is_nan : Float → Bool
  -- the constants 0, 1, 0.75, 0.10 and 0.9
  pub zero_f : Float
  pub one_f : Float
  pub three_quarters : Float
  pub one_tenth : Float
  pub nine_tenths : Float
  -- float64(n), *, /, and int(math.Floor(x)), int(math.Ceil(x)) of an x that is not negative
  pub of_int : ℕ → Float
  pub mul : Float → Float → Float
  pub div : Float → Float → Float
  pub floor : Float → ℕ
  pub ceil : Float → ℕ
  -- 0.75 lies strictly between 0 and 1
  pub three_quarters_number : is_nan three_quarters ≡ false
  pub three_quarters_pos : le three_quarters zero_f ≡ false
  pub three_quarters_below : le one_f three_quarters ≡ false
  -- a number between 0 and 1 scales an integer down
  pub floor-mul-le :
      (n : ℕ) (r : Float)
      → is_nan r ≡ false
      → le r zero_f ≡ false
      → le one_f r ≡ false
      → floor (mul (of_int n) r) ≤ n
  pub ceil-nine_tenths-le : (n : ℕ) → ceil (mul nine_tenths (of_int n)) ≤ n
  -- a share of a positive whole is 0 exactly if it is empty
  pub div_zero : (k n : ℕ) → 0 < n → eq (div (of_int k) (of_int n)) zero_f ≡ (k == 0)
  -- a positive number is not below one that equals 0
  pub lt_zero : (t x : Float) → le t zero_f ≡ false → eq x zero_f ≡ true → lt t x ≡ false
