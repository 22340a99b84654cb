-- ===== src/Vision/Pool/Service.antt =====
-- Which provider serves a call to the pool.
use blind_llm_eyes.Base.{
  ℕ, ◌+◌, ◌≡◌, refl, ◌↔◌, String, true, false, some, List, [], ◌∷◌, arith, ◌∙◌, ap,
}
use blind_llm_eyes.Vision.Breaker.{allow}
use blind_llm_eyes.Vision.Pool.{
  Image, described, refused, Member, pool_described, Walk, call_provider, visit, start,
  describe_image_internal,
}
use blind_llm_eyes.Vision.Pool.Steps.{
  skips, serves, fails, turn, visit_skip, visit_success, visit_failure, skipped_walk, failed_walk,
}

-- From time `now` on, the provider called `name` is the first of the list whose breaker lets the
-- call pass and that answers, and it answers `desc`. A provider that fails takes its time.
pub data Serves (image : Image) (context_text : String)
    : ℕ → List Member → String → String → Type 0 where
  here :
      {now : ℕ} {m : Member} {ms : List Member} {name desc : String}
      → m.name ≡ name
      → (allow now m.cb).1 ≡ true
      → (call_provider m now image context_text).outcome ≡ described desc
      → Serves image context_text now (m ∷ ms) name desc
  past_open :
      {now : ℕ} {m : Member} {ms : List Member} {name desc : String}
      → (allow now m.cb).1 ≡ false
      → Serves image context_text now ms name desc
      → Serves image context_text now (m ∷ ms) name desc
  past_failure :
      {now : ℕ} {m : Member} {ms : List Member} {name desc : String} (reason : String)
      → (allow now m.cb).1 ≡ true
      → (call_provider m now image context_text).outcome ≡ refused reason
      → Serves image context_text
          (now + (call_provider m now image context_text).elapsed)
          ms
          name
          desc
      → Serves image context_text now (m ∷ ms) name desc

module _ (image : Image) (context_text : String) where
  Serves-visit :
      (ms : List Member) (w : Walk) (now : ℕ) (name desc : String)
      → Serves image context_text now ms name desc
      → w.now ≡ now
      → (visit image context_text ms w).description ≡ some desc
  Serves-visit ms w now name desc (here {m = m} {ms = rest} named passes answer) t =
      rw (visit_success image context_text m rest w desc (rw t passes) (rw t answer))
  Serves-visit ms w now name desc (past_open {m = m} {ms = rest} refuses s) t =
      rw (visit_skip image context_text m rest w (rw t refuses))
        (Serves-visit rest (skipped_walk image context_text m w) now name desc s t)
  Serves-visit ms w now name desc (past_failure {m = m} {ms = rest} reason passes failed s) t =
      rw (visit_failure image context_text m rest w reason (rw t passes) (rw t failed))
        (Serves-visit rest (failed_walk image context_text m rest reason w) _ name desc s (rw t))

  visit-Serves :
      (ms : List Member) (w : Walk) (desc : String)
      → (visit image context_text ms w).description ≡ some desc
      → (name : String) × Serves image context_text w.now ms name desc
  visit-Serves [] w desc h = absurd (unfold visit in cc)
  visit-Serves (m ∷ ms) w desc h = elim (turn image context_text m w) [
    | skips refuses ↦
        let (name, s) =
          visit-Serves ms (skipped_walk image context_text m w) desc
            (rw (visit_skip image context_text m ms w refuses) at h) in
        (name, past_open refuses s)
    | serves d passes answer ↦ (
      m.name,
      here refl passes (
          answer
          ∙ ap described
              (unwrap d (rw (visit_success image context_text m ms w d passes answer) at h))),
    )
    | fails reason passes failed ↦
        let (name, s) =
          visit-Serves ms (failed_walk image context_text m ms reason w) desc
            (rw (visit_failure image context_text m ms w reason passes failed) at h) in
        (name, past_failure reason passes failed s)
  ]
    where
      unwrap : (d : String) → some d ≡ some desc → d ≡ desc
      unwrap d e = cc

  -- The pool answers with a description exactly when some provider serves the call.
  pub describe_iff_Serves :
      (now : ℕ) (ms : List Member) (desc : String)
      → ((describe_image_internal now image context_text ms).1 ≡ pool_described desc)
        ↔ ((name : String) × Serves image context_text now ms name desc)
  unfolding describe_image_internal
  describe_iff_Serves now ms desc = (
    (λ h. visit-Serves ms (start now) desc (ground arith)),
    (λ s. ground (arith, Serves-visit ms (start now) now s.0 desc s.1 refl)),
  )
