-- ===== src/Proxy/Adaptive/Quantile.antt =====
-- The 90th percentile of a window of latencies.
use blind_llm_eyes.Base.{
  ℕ, zero, suc, ◌<◌, ◌≡◌, refl, subst, some, List, [], ◌∷◌, arith, length, length-map, map,
  get_elem?, All,
}
use blind_llm_eyes.Base.Floats.{Floats}
use blind_llm_eyes.Proxy.Adaptive.{Sample, insert_latency, sort_latencies, p90_index, p90}

length-insert_latency : (x : ℕ) (ys : List ℕ) → length (insert_latency x ys) ≡ suc (length ys)
unfolding insert_latency
length-insert_latency x [] = refl
length-insert_latency x (y ∷ ys) = ground (arith, length-insert_latency x ys)

length-sort_latencies : (xs : List ℕ) → length (sort_latencies xs) ≡ length xs
unfolding sort_latencies
length-sort_latencies [] = refl
length-sort_latencies (x ∷ xs) =
    omega (arith, length-insert_latency x (sort_latencies xs), length-sort_latencies xs)

pub get_elem?_lt {ℓ} :
    {A : Type ℓ} (xs : List A) (i : ℕ) → i < length xs → (a : A) × (get_elem? xs i ≡ some a)
get_elem?_lt [] i h = absurd (omega arith)
get_elem?_lt (x ∷ xs) zero h = (x, refl)
get_elem?_lt (x ∷ xs) (suc i) h = get_elem?_lt xs i (omega arith)

module _ (P : ℕ → Type 0) where
  All-insert_latency : (x : ℕ) (ys : List ℕ) → P x → All P ys → All P (insert_latency x ys)
  unfolding insert_latency
  All-insert_latency x [] p a = (p, tt)
  All-insert_latency x (y ∷ ys) p a = ground (arith, All-insert_latency x ys p a.1)

  All-sort_latencies : (xs : List ℕ) → All P xs → All P (sort_latencies xs)
  unfolding sort_latencies
  All-sort_latencies [] a = tt
  All-sort_latencies (x ∷ xs) a =
      All-insert_latency x (sort_latencies xs) a.0 (All-sort_latencies xs a.1)

  All-get_elem? : (xs : List ℕ) (i x : ℕ) → All P xs → get_elem? xs i ≡ some x → P x
  All-get_elem? [] i x a e = absurd (ground arith)
  All-get_elem? (y ∷ ys) zero x a e = subst P (unwrap e) a.0
    where
      unwrap : some y ≡ some x → y ≡ x
      unwrap q = cc
  All-get_elem? (y ∷ ys) (suc i) x a e = All-get_elem? ys i x a.1 e

  All-latencies : (ss : List Sample) → All (λ s. P s.exec_ms) ss → All P (map (λ s. s.exec_ms) ss)
  All-latencies [] a = tt
  All-latencies (s ∷ ss) a = (a.0, All-latencies ss a.1)

module _ (floats : Floats) where
  open floats use {ceil-nine_tenths-le}

  -- The index of the percentile is never out of range.
  pub p90_total : (ss : List Sample) → 0 < length ss → (p : ℕ) × (p90 floats ss ≡ some p)
  unfolding p90 p90_index
  p90_total ss h =
      get_elem?_lt (sort_latencies (map (λ s. s.exec_ms) ss)) (p90_index floats (length ss)) (
        omega (
          arith,
          length-sort_latencies (map (λ s. s.exec_ms) ss),
          length-map (λ (s : Sample). s.exec_ms) ss,
          ceil-nine_tenths-le (length ss),
        ))

  -- What holds of every latency of the window holds of its percentile.
  pub All-p90 :
      (P : ℕ → Type 0) (ss : List Sample) (p : ℕ)
      → All (λ s. P s.exec_ms) ss
      → p90 floats ss ≡ some p
      → P p
  unfolding p90
  All-p90 P ss p a e =
      All-get_elem? P (sort_latencies (map (λ s. s.exec_ms) ss)) (p90_index floats (length ss)) p
        (All-sort_latencies P _ (All-latencies P ss a)) e
