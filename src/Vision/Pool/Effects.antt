-- ===== src/Vision/Pool/Effects.antt =====
-- What a call to the pool does to its members and its counters.
use blind_llm_eyes.Base.{
  ℕ, suc, ◌+◌, ◌≡◌, refl, String, some, List, [], ◌∷◌, drop, get_elem?, map, All, ap,
}
use blind_llm_eyes.Vision.Breaker.{
  CircuitBreaker, cb_closed, record_success, allows, failures, successes, step,
}
use blind_llm_eyes.Vision.Breaker.Invariant.{IsValid, step-IsValid}
use blind_llm_eyes.Vision.Pool.{Image, Member, Walk, visit}
use blind_llm_eyes.Vision.Pool.Steps.{
  skips, serves, fails, turn, visit_skip, visit_success, visit_failure, skipped_walk, failed_walk,
  served_member, answer,
}

-- What is left of a member when its breaker is put aside.
abbrev settings : CircuitBreaker → List Member → List Member
settings cb = map {A = Member} λ m. record m { cb = cb }

abbrev pub Sound : List Member → Type 0
Sound = All λ m. IsValid m.cb

module _ (image : Image) (context_text : String) where
  -- A call changes nothing of the members but their breakers.
  pub visit_keeps_settings :
      (cb : CircuitBreaker) (ms : List Member) (w : Walk)
      → settings cb (visit image context_text ms w).members ≡ settings cb ms
  visit_keeps_settings cb [] w = unfold visit in refl
  visit_keeps_settings cb (m ∷ ms) w = elim (turn image context_text m w) [
    | skips refuses ↦ rw (visit_skip image context_text m ms w refuses) (
        ap (◌∷◌ (record m { cb = cb }))
          (visit_keeps_settings cb ms (skipped_walk image context_text m w)))
    | serves d passes answers ↦ rw (visit_success image context_text m ms w d passes answers)
    | fails reason passes failed ↦
        rw (visit_failure image context_text m ms w reason passes failed) (
          ap (◌∷◌ (record m { cb = cb }))
            (visit_keeps_settings cb ms (failed_walk image context_text m ms reason w)))
  ]

  -- Valid breakers stay valid.
  pub visit_keeps_IsValid :
      (ms : List Member) (w : Walk) → Sound ms → Sound (visit image context_text ms w).members
  visit_keeps_IsValid [] w v = unfold visit in tt
  visit_keeps_IsValid (m ∷ ms) w v = elim (turn image context_text m w) [
    | skips refuses ↦ rw (visit_skip image context_text m ms w refuses) (
      unfold step in step-IsValid m.cb (allows w.now) v.0,
      visit_keeps_IsValid ms (skipped_walk image context_text m w) v.1,
    )
    | serves d passes answers ↦ rw (visit_success image context_text m ms w d passes answers) (
      unfold step in step-IsValid _ (successes w.now) (step-IsValid m.cb (allows w.now) v.0),
      v.1,
    )
    | fails reason passes failed ↦
        rw (visit_failure image context_text m ms w reason passes failed) (
          unfold step in
              step-IsValid _ (failures (w.now + (answer image context_text m w).elapsed))
                (step-IsValid m.cb (allows w.now) v.0),
          visit_keeps_IsValid ms (failed_walk image context_text m ms reason w) v.1,
        )
  ]

  -- A description comes from a member whose breaker is closed by it and without failures; the
  -- members behind that one are as they were.
  pub visit_serves_one :
      (ms : List Member) (w : Walk) (desc : String)
      → (visit image context_text ms w).description ≡ some desc
      → (i : ℕ) × (m : Member) × (get_elem? (visit image context_text ms w).members i ≡ some m)
        × (m.cb.state ≡ cb_closed)
        × (m.cb.consecutive_fails ≡ 0)
        × (drop (suc i) (visit image context_text ms w).members ≡ drop (suc i) ms)
  visit_serves_one [] w desc h = absurd (unfold visit in cc)
  visit_serves_one (m ∷ ms) w desc h = elim (turn image context_text m w) [
    | skips refuses ↦
        let e = visit_skip image context_text m ms w refuses in
        let (i, n, at, closed, none_failed, rest) =
          visit_serves_one ms (skipped_walk image context_text m w) desc (rw e at h) in
        rw e (suc i, n, at, closed, none_failed, rest)
    | serves d passes answers ↦ rw (visit_success image context_text m ms w d passes answers) (
      0,
      served_member image context_text m w,
      refl,
      unfold record_success in refl,
      unfold record_success in refl,
      refl,
    )
    | fails reason passes failed ↦
        let e = visit_failure image context_text m ms w reason passes failed in
        let (i, n, at, closed, none_failed, rest) =
          visit_serves_one ms (failed_walk image context_text m ms reason w) desc (rw e at h) in
        rw e (suc i, n, at, closed, none_failed, rest)
  ]
