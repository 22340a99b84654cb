-- ===== src/Vision/Pool/Budget.antt =====
-- The time that a call to the pool takes: each provider has its own timeout, and one whose breaker
-- refuses takes none.
use blind_llm_eyes.Base.{
  ◌⊎◌, branches, inr, ◌<◌, inl, subst, ℕ, ◌+◌, ◌≤◌, ◌≡◌, refl, String, false, none, List, [], ◌∷◌,
  arith, length, All, ap, ap₂,
}
use blind_llm_eyes.Vision.Breaker.{allow, cb_closed, cb_open, cb_half_open, CircuitBreaker, CbState}
use blind_llm_eyes.Vision.Pool.{
  Answer, Image, Member, Walk, select_timeout, call_provider, visit, start, describe_image_internal,
  all_failed, LastErr,
}
use blind_llm_eyes.Vision.Pool.Steps.{
  skips, serves, fails, turn, visit_skip, visit_success, visit_failure, skipped_walk, failed_walk,
}

-- The timeout for an image of this size: the large one, if it and the threshold are set and the image
-- reaches the threshold, and the plain one else.
abbrev pub IsTimeout : (plain large threshold size : ℕ) → ℕ → Type 0
IsTimeout plain large threshold size d =
    ((0 < threshold) × (threshold ≤ size) × (0 < large) × (d ≡ large))
    ⊎ (((threshold ≡ 0) ⊎ ((size < threshold) ⊎ (large ≡ 0))) × (d ≡ plain))

-- t is the sum of the timeouts of the members.
abbrev pub IsBudget : ℕ → List Member → ℕ → Type 0
IsBudget size [] t = t ≡ 0
IsBudget size (m ∷ ms) t =
    (d : ℕ) × (rest : ℕ) × IsTimeout m.timeout m.large_timeout m.large_image_threshold size d
    × IsBudget size ms rest
    × (t ≡ d + rest)

pub select_timeout-IsTimeout :
    (m : Member) (size : ℕ)
    → IsTimeout m.timeout m.large_timeout m.large_image_threshold size (select_timeout m size)
unfolding select_timeout
select_timeout-IsTimeout m size = grind arith

select_timeout-eq :
    (m : Member) (size d : ℕ)
    → IsTimeout m.timeout m.large_timeout m.large_image_threshold size d
    → select_timeout m size ≡ d
unfolding select_timeout
select_timeout-eq m size d (inl (on, reached, set, e)) = ground arith
select_timeout-eq m size d (inr (inl off, e)) = ground arith
select_timeout-eq m size d (inr (inr (inl small), e)) = ground arith
select_timeout-eq m size d (inr (inr (inr unset), e)) = ground arith

select_timeout_pos : (m : Member) (size : ℕ) → 0 < m.timeout → 0 < select_timeout m size
unfolding select_timeout
select_timeout_pos m size h = ground arith

refusing_same :
    (s : CbState) (now : ℕ) (cb : CircuitBreaker)
    → cb.state ≡ s
    → (allow now cb).1 ≡ false
    → (allow now cb).0 ≡ cb
unfolding allow
refusing_same cb_closed now cb e h = ground arith
refusing_same cb_open now cb e h = ground arith
refusing_same cb_half_open now cb e h = ground arith

module _ (image : Image) (context_text : String) where
  -- The member has a timeout, and its provider answers within any that it is given.
  abbrev pub IsPunctual : Member → Type 0
  IsPunctual m =
      (0 < m.timeout)
      × ((now d : ℕ) → 0 < d → (m.provider.describe_image now d image).elapsed ≤ d)
      × ((now d : ℕ)
          → 0 < d
          → (m.provider.describe_image_with_context now d image context_text).elapsed ≤ d)

  call_provider_time :
      (m : Member) (now d : ℕ)
      → IsPunctual m
      → IsTimeout m.timeout m.large_timeout m.large_image_threshold image.image_size d
      → (call_provider m now image context_text).elapsed ≤ d
  unfolding call_provider
  call_provider_time m now d (set, plain, contextual) t =
      let same = select_timeout-eq m image.image_size d t in
      let positive = subst (λ k. 0 < k) same (select_timeout_pos m image.image_size set) in
      rw same (
        branches (λ (a : Answer). a.elapsed ≤ d) m.provider.is_contextual _ _
          (contextual now d positive) (plain now d positive))

  visit_time :
      (ms : List Member) (w : Walk) (t : ℕ)
      → All IsPunctual ms
      → IsBudget image.image_size ms t
      → (visit image context_text ms w).walk.now ≤ w.now + t
  visit_time [] w t p b = unfold visit in omega arith
  visit_time (m ∷ ms) w t p (d, rest, own, others, sum) = elim (turn image context_text m w) [
    | skips refuses ↦
        rw (visit_skip image context_text m ms w refuses)
          (omega (arith, sum, visit_time ms (skipped_walk image context_text m w) rest p.1 others))
    | serves desc passes answers ↦
        rw (visit_success image context_text m ms w desc passes answers)
          (omega (arith, sum, call_provider_time m w.now d p.0 own))
    | fails reason passes failed ↦
        rw (visit_failure image context_text m ms w reason passes failed) (
          omega (
            arith,
            sum,
            call_provider_time m w.now d p.0 own,
            visit_time ms (failed_walk image context_text m ms reason w) rest p.1 others,
          ))
  ]

  -- If every member has a timeout, and its provider answers within any timeout that it is given,
  -- then the pool answers within the sum of the timeouts of its members: for each of them the
  -- large one, if it and the threshold are set and the image reaches the threshold, and the plain
  -- one else.
  pub describe_time :
      (now : ℕ) (ms : List Member) (t : ℕ)
      → All IsPunctual ms
      → IsBudget image.image_size ms t
      → (describe_image_internal now image context_text ms).0.walk.now ≤ now + t
  unfolding describe_image_internal
  describe_time now ms t p b = visit_time ms (start now) t p b

  abbrev pub Refuses : ℕ → Member → Type 0
  Refuses now m = (allow now m.cb).1 ≡ false

  visit_refused :
      (ms : List Member) (w : Walk)
      → All (Refuses w.now) ms
      → ((visit image context_text ms w).members ≡ ms)
        × ((visit image context_text ms w).description ≡ none)
        × ((visit image context_text ms w).walk.now ≡ w.now)
  visit_refused [] w h = unfold visit in (refl, refl, refl)
  visit_refused (m ∷ ms) w h =
      let (same, nothing, still) = visit_refused ms (skipped_walk image context_text m w) h.1 in
      rw (visit_skip image context_text m ms w h.0) (
        ap₂ ◌∷◌ (ap (λ c. record m { cb = c }) (refusing_same m.cb.state w.now m.cb refl h.0)) same,
        nothing,
        still,
      )

  -- If every breaker refuses, the pool fails at once and stays as it is.
  pub describe_refused :
      (now : ℕ) (ms : List Member)
      → All (Refuses now) ms
      → ((describe_image_internal now image context_text ms).0.members ≡ ms)
        × ((describe_image_internal now image context_text ms).0.walk.now ≡ now)
        × ((e : LastErr) × ((describe_image_internal now image context_text ms).1
              ≡ all_failed (length ms) e))
  unfolding describe_image_internal
  describe_refused now ms h =
      let (same, nothing, still) = visit_refused ms (start now) h in
      (same, still, ((visit image context_text ms (start now)).walk.last_err, rw nothing))
