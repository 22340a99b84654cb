-- ===== src/Vision/Pool/Steps.antt =====
-- The three ways in which one provider of the pool is passed or serves, and the split between them.
use blind_llm_eyes.Base.{
  ◌+◌, ◌≡◌, refl, String, Bool, true, false, some, List, ◌∷◌, inl, inr, Bool-cases,
}
use blind_llm_eyes.Vision.Breaker.{allow, record_success, record_failure}
use blind_llm_eyes.Vision.Pool.{
  Image, Described, described, refused, Answer, Member, Walk, cons_member, skip, fail, succeed,
  call_provider, visit,
}

module _ (image : Image) (context_text : String) where
  -- the answer that the provider gives if it is called at this point of the walk
  abbrev pub answer : Member → Walk → Answer
  answer m w = call_provider m w.now image context_text

  abbrev pub passes : Member → Walk → Bool
  passes m w = (allow w.now m.cb).1

  abbrev pub skipped_walk : Member → Walk → Walk
  skipped_walk m w = skip m (allow w.now m.cb).0 w

  abbrev pub failed_walk : Member → List Member → String → Walk → Walk
  failed_walk m ms reason w = fail m (allow w.now m.cb).0 (answer m w).elapsed reason ms w

  abbrev pub skipped_member : Member → Walk → Member
  skipped_member m w = record m { cb = (allow w.now m.cb).0 }

  abbrev pub failed_member : Member → Walk → Member
  failed_member m w = record m {
    cb = record_failure (w.now + (answer m w).elapsed) (allow w.now m.cb).0;
  }

  abbrev pub served_member : Member → Walk → Member
  served_member m w = record m { cb = record_success (allow w.now m.cb).0 }

  pub visit_skip :
      (m : Member) (ms : List Member) (w : Walk)
      → passes m w ≡ false
      → visit image context_text (m ∷ ms) w
        ≡ cons_member (skipped_member m w) (visit image context_text ms (skipped_walk m w))
  unfolding visit
  visit_skip m ms w h = rw h

  pub visit_success :
      (m : Member) (ms : List Member) (w : Walk) (desc : String)
      → passes m w ≡ true
      → (answer m w).outcome ≡ described desc
      → visit image context_text (m ∷ ms) w ≡ record {
        members = served_member m w ∷ ms;
        walk = succeed m (allow w.now m.cb).0 (answer m w).elapsed w;
        description = some desc;
      }
  unfolding visit
  visit_success m ms w desc h a = rw (h, a, visit)

  pub visit_failure :
      (m : Member) (ms : List Member) (w : Walk) (reason : String)
      → passes m w ≡ true
      → (answer m w).outcome ≡ refused reason
      → visit image context_text (m ∷ ms) w
        ≡ cons_member (failed_member m w) (visit image context_text ms (failed_walk m ms reason w))
  unfolding visit
  visit_failure m ms w reason h a = rw (h, a, visit)

  -- What happens at a provider.
  pub data Turn (m : Member) (w : Walk) : Type 0 where
    skips : passes m w ≡ false → Turn m w
    serves : (desc : String) → passes m w ≡ true → (answer m w).outcome ≡ described desc → Turn m w
    fails : (reason : String) → passes m w ≡ true → (answer m w).outcome ≡ refused reason → Turn m w

  outcome-Turn :
      (m : Member) (w : Walk) (o : Described)
      → passes m w ≡ true
      → (answer m w).outcome ≡ o
      → Turn m w
  outcome-Turn m w (described desc) h e = serves desc h e
  outcome-Turn m w (refused reason) h e = fails reason h e

  pub turn : (m : Member) (w : Walk) → Turn m w
  turn m w = elim (Bool-cases (passes m w)) [
    | inl h ↦ outcome-Turn m w (answer m w).outcome h refl
    | inr h ↦ skips h
  ]
