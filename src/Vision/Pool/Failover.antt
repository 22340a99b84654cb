-- ===== src/Vision/Pool/Failover.antt =====
-- The count of failovers of the pool, and the metric that goes with it.
use blind_llm_eyes.Base.{
  ℕ, suc, ◌+◌, ◌-◌, ◌≤◌, ◌≡◌, refl, String, List, [], ◌∷◌, ◌++◌, arith, length, Bool-cases, inl,
  inr,
}
use blind_llm_eyes.Vision.Breaker.{CbState, numeric_value, allow}
use blind_llm_eyes.Vision.Pool.{
  Image, Member, Walk, Event, skipped, provider_call, provider_duration, breaker_state,
  cb_transition, failover, visit, start, describe_image_internal, same_state, transition,
}
use blind_llm_eyes.Vision.Pool.Steps.{
  skips, serves, fails, turn, visit_skip, visit_success, visit_failure, skipped_walk, failed_walk,
}

-- FailoverEventsTotal after the events of a list.
pub failovers : List Event → ℕ
failovers [] = 0
failovers (failover ∷ es) = suc (failovers es)
failovers (provider_call n r ∷ es) = failovers es
failovers (provider_duration n d ∷ es) = failovers es
failovers (breaker_state n v ∷ es) = failovers es
failovers (cb_transition n b a ∷ es) = failovers es

failovers-append : (xs ys : List Event) → failovers (xs ++ ys) ≡ failovers xs + failovers ys
unfolding failovers
failovers-append [] ys = omega arith
failovers-append (failover ∷ es) ys = omega (arith, failovers-append es ys)
failovers-append (provider_call n r ∷ es) ys = failovers-append es ys
failovers-append (provider_duration n d ∷ es) ys = failovers-append es ys
failovers-append (breaker_state n v ∷ es) ys = failovers-append es ys
failovers-append (cb_transition n b a ∷ es) ys = failovers-append es ys

failovers-transition : (n : String) (b a : CbState) → failovers (transition n b a) ≡ 0
unfolding failovers
failovers-transition n b a = elim (Bool-cases (same_state b a)) [
  | inl same ↦ rw same
  | inr other ↦ rw other
]

failovers_report :
    (n : String) (es tail : List Event) (a b c : CbState)
    → failovers (es ++ (transition n a b ++ (transition n b c ++ tail)))
      ≡ failovers es + failovers tail
failovers_report n es tail a b c = omega (
  arith,
  failovers-append es (transition n a b ++ (transition n b c ++ tail)),
  failovers-append (transition n a b) (transition n b c ++ tail),
  failovers-append (transition n b c) tail,
  failovers-transition n a b,
  failovers-transition n b c,
)

module _ (image : Image) (context_text : String) where
  -- Both go up together in a walk.
  abbrev Agree : Walk → Walk → Type 0
  Agree v w = v.failover_count + failovers w.events ≡ w.failover_count + failovers v.events

  skipped_Agree : (m : Member) (w : Walk) → Agree w (skipped_walk image context_text m w)
  unfolding failovers
  skipped_Agree m w = omega (
    arith,
    failovers-append w.events (
        provider_call m.name skipped
        ∷ breaker_state m.name (numeric_value (allow w.now m.cb).0.state)
        ∷ []),
  )

  failed_Agree :
      (m : Member) (ms : List Member) (reason : String) (w : Walk)
      → Agree w (failed_walk image context_text m ms reason w)
  unfolding failovers
  failed_Agree m [] reason w =
      rw (failovers_report m.name w.events _ m.cb.state (allow w.now m.cb).0.state _) (omega arith)
  failed_Agree m (n ∷ ns) reason w =
      rw (failovers_report m.name w.events _ m.cb.state (allow w.now m.cb).0.state _) (omega arith)

  failed_bound :
      (m : Member) (ms : List Member) (reason : String) (w : Walk) (count : ℕ)
      → count ≤ (failed_walk image context_text m ms reason w).failover_count + (length ms - 1)
      → count ≤ w.failover_count + length ms
  failed_bound m [] reason w count h = omega arith
  failed_bound m (n ∷ ns) reason w count h = omega arith

  visit-Agree : (ms : List Member) (w : Walk) → Agree w (visit image context_text ms w).walk
  unfolding failovers
  visit-Agree [] w = unfold visit in refl
  visit-Agree (m ∷ ms) w = elim (turn image context_text m w) [
    | skips refuses ↦
        rw (visit_skip image context_text m ms w refuses)
          (omega (arith, skipped_Agree m w, visit-Agree ms (skipped_walk image context_text m w)))
    | serves d passes answers ↦ rw (visit_success image context_text m ms w d passes answers) (
        rw (failovers_report m.name w.events _ m.cb.state (allow w.now m.cb).0.state _)
          (omega arith))
    | fails reason passes failed ↦
        rw (visit_failure image context_text m ms w reason passes failed) (
          omega (
            arith,
            failed_Agree m ms reason w,
            visit-Agree ms (failed_walk image context_text m ms reason w),
          ))
  ]

  visit_failovers_bound :
      (ms : List Member) (w : Walk)
      → (visit image context_text ms w).walk.failover_count ≤ w.failover_count + (length ms - 1)
  visit_failovers_bound [] w = unfold visit in omega arith
  visit_failovers_bound (m ∷ ms) w = elim (turn image context_text m w) [
    | skips refuses ↦
        rw (visit_skip image context_text m ms w refuses)
          (omega (arith, visit_failovers_bound ms (skipped_walk image context_text m w)))
    | serves d passes answers ↦
        rw (visit_success image context_text m ms w d passes answers) (omega arith)
    | fails reason passes failed ↦
        rw (visit_failure image context_text m ms w reason passes failed) (
          omega (
            arith,
            failed_bound m ms reason w _
                (visit_failovers_bound ms (failed_walk image context_text m ms reason w)),
          ))
  ]

  -- The count of failovers is the number of failover events that the metrics saw, and there are
  -- fewer of them than providers.
  pub describe_failovers :
      (now : ℕ) (m : Member) (ms : List Member)
      → let w = (describe_image_internal now image context_text (m ∷ ms)).0.walk in
        (w.failover_count ≡ failovers w.events) × (w.failover_count ≤ length ms)
  unfolding describe_image_internal failovers
  describe_failovers now m ms =
      let agree = visit-Agree (m ∷ ms) (start now) in
      (omega (arith, agree), omega (arith, visit_failovers_bound (m ∷ ms) (start now)))
