-- ===== src/Tests/Fractions.antt =====
-- Fractions, which the tests use in place of floats.
use blind_llm_eyes.Base.{
  Bool, ℕ, ◌+◌, ◌-◌, ◌*◌, ◌/◌, ◌≤◌, ◌<◌, ◌≡◌, refl, true, false, arith, leb, ltb, ◌==◌,
}
use blind_llm_eyes.Base.Floats.{Floats}

abbrev pub Fraction : Type 0
Fraction = ℕ × ℕ

abbrev pub le_f : Fraction → Fraction → Bool
le_f (a, b) (c, d) = leb (a * d) (c * b)

abbrev pub lt_f : Fraction → Fraction → Bool
lt_f (a, b) (c, d) = ltb (a * d) (c * b)

abbrev pub eq_f : Fraction → Fraction → Bool
eq_f (a, b) (c, d) = a * d == c * b

pub scale-le : (n a b : ℕ) → leb (1 * b) (a * 1) ≡ false → n * a / (1 * b) ≤ n
scale-le n a b h = grind arith

pub nine-le : (n : ℕ) → (9 * n + 10 * 1 - 1) / (10 * 1) ≤ n
nine-le n = omega arith

pub share-zero : (k n : ℕ) → 0 < n → (k * 1 * 1 == 0 * (1 * n)) ≡ (k == 0)
share-zero k n h = ground arith

pub not-below-zero :
    (a b c d : ℕ)
    → leb (a * 1) (0 * b) ≡ false
    → (c * 1 == 0 * d) ≡ true
    → ltb (a * d) (c * b) ≡ false
not-below-zero a b c d h e = grind arith

-- fractions, in place of floats
abbrev pub fractions : Floats
fractions = record {
  Float = Fraction;
  le = le_f;
  lt = lt_f;
  eq = eq_f;
  is_nan = λ x. false;
  zero_f = (0, 1);
  one_f = (1, 1);
  three_quarters = (3, 4);
  one_tenth = (1, 10);
  nine_tenths = (9, 10);
  of_int = λ n. (n, 1);
  mul = λ x y. (x.0 * y.0, x.1 * y.1);
  div = λ x y. (x.0 * y.1, x.1 * y.0);
  floor = λ x. x.0 / x.1;
  ceil = λ x. (x.0 + x.1 - 1) / x.1;
  three_quarters_number = refl;
  three_quarters_pos = refl;
  three_quarters_below = refl;
  floor-mul-le = λ n r _ _ h. scale-le n r.0 r.1 h;
  ceil-nine_tenths-le = nine-le;
  div_zero = share-zero;
  lt_zero = λ t x p z. not-below-zero t.0 t.1 x.0 x.1 p z;
}
