-- ===== src/Proxy/Format.antt =====
-- proxy/handler.go: formatInt, for the counters of the result header, which are not negative.
use Prim.Native.Nat.{◌/◌, ◌%◌}
use Prim.Native.String.{◌++◌ as append, slice}
use blind_llm_eyes.Base.{
  ap, ℕ, zero, suc, ◌+◌, ◌*◌, ◌≤◌, ◌<◌, ◌≡◌, refl, ◌∙◌, String, ◌==◌, if◌then◌else◌, List, [], ◌∷◌,
  arith, Bool-cases, inl, inr,
}

-- The loop that fills buf from its end. Every round divides n, so n rounds are enough.
unfoldable pub digits : (fuel n : ℕ) → List ℕ → List ℕ
digits zero n buf = buf
digits (suc fuel) n buf =
    let more = digits fuel (n / 10) (n % 10 ∷ buf) in if n == 0 then buf else more

unfoldable pub text_of : List ℕ → String
text_of [] = ""
text_of (d ∷ ds) = append (slice "0123456789" d (suc d)) (text_of ds)

unfoldable pub format_int : ℕ → String
format_int n = if n == 0 then "0" else text_of (digits n n [])

-- The number that decimal digits write, behind the digits that were read.
unfoldable pub read_digits : ℕ → List ℕ → ℕ
read_digits acc [] = acc
read_digits acc (d ∷ ds) = read_digits (acc * 10 + d) ds

-- The loop writes the digits of n in front of those that are there, and has rounds enough.
read_digits-digits :
    (fuel n : ℕ) (buf : List ℕ) → n ≤ fuel → read_digits 0 (digits fuel n buf) ≡ read_digits n buf
unfolding digits read_digits
read_digits-digits zero n buf h = let z : 0 ≡ n = omega arith in ap (λ m. read_digits m buf) z
read_digits-digits (suc fuel) n buf h = elim (Bool-cases (n == 0)) [
  | inl e ↦ let z : n ≡ 0 = ground arith in rw (e, z) refl
  | inr e ↦
      let positive : 0 < n = ground arith in
      let parts : n / 10 * 10 + n % 10 ≡ n = omega arith in
      let smaller : n / 10 ≤ fuel = omega arith in
      rw e (
        read_digits-digits fuel (n / 10) (n % 10 ∷ buf) smaller ∙ ap (λ m. read_digits m buf) parts)
]

-- The digits that formatInt writes are those of its number.
pub format_int_digits : (n : ℕ) → read_digits 0 (digits n n []) ≡ n
unfolding read_digits
format_int_digits n = read_digits-digits n n [] (omega arith)
