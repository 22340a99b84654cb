-- ===== src/Proxy/Adaptive/Steps.antt =====
-- The four ways in which a sample is recorded.
use blind_llm_eyes.Base.{ℕ, ◌≡◌, true, false, Bool-cases, inl, inr, some, arith, length, ltb, since}
use blind_llm_eyes.Base.Floats.{Floats}
use blind_llm_eyes.Proxy.Adaptive.{Sample, Controller, pushed, p90, adjust, record_sample, millis}

module _ (floats : Floats) where
  -- The window is full and the cooldown has passed.
  abbrev pub IsDue : ℕ → Controller floats → Type 0
  IsDue now a =
      (ltb (length a.samples) a.cfg.sample_window ≡ false)
      × (ltb (since now a.last_adjust) (millis a.cfg.cooldown_ms) ≡ false)

  pub data Recorded (now : ℕ) (s : Sample) (a : Controller floats) : Type 0 where
    disabled : a.cfg.enabled ≡ false → record_sample floats now s a ≡ some a → Recorded now s a
    kept :
        a.cfg.enabled ≡ true
        → ¬ IsDue now (pushed floats s a)
        → record_sample floats now s a ≡ some (pushed floats s a)
        → Recorded now s a
    due : a.cfg.enabled ≡ true → IsDue now (pushed floats s a) → Recorded now s a

  pub record_sample_due :
      (now : ℕ) (s : Sample) (a : Controller floats) (p : ℕ)
      → a.cfg.enabled ≡ true
      → IsDue now (pushed floats s a)
      → p90 floats (pushed floats s a).samples ≡ some p
      → record_sample floats now s a ≡ some (adjust floats now (pushed floats s a) p)
  unfolding record_sample
  record_sample_due now s a p on d e = ground (arith, d.0, d.1)

  pub recorded : (now : ℕ) (s : Sample) (a : Controller floats) → Recorded now s a
  unfolding record_sample
  recorded now s a =
      let b = pushed floats s a in
      elim (Bool-cases a.cfg.enabled) [
        | inr off ↦ disabled off (ground arith)
        | inl on ↦ elim (Bool-cases (ltb (length b.samples) b.cfg.sample_window)) [
          | inl short ↦ kept on (λ d. ground (arith, d.0)) (ground arith)
          | inr full ↦
              elim (Bool-cases (ltb (since now b.last_adjust) (millis b.cfg.cooldown_ms))) [
                | inl hot ↦ kept on (λ d. ground (arith, d.1)) (ground arith)
                | inr cool ↦ due on (full, cool)
              ]
        ]
      ]
