-- ===== src/Proxy/Adaptive/Control.antt =====
-- When the controller moves its limit, and where to.
use Prim.Native.Nat.{min, max}
use blind_llm_eyes.Base.{
  ℕ, none-ne-some, some_eq, Option-cases, inl, inr, sym, ◌∙◌, ap, ◌+◌, ◌-◌, ◌≤◌, ◌<◌, ◌≡◌, refl,
  true, false, some, List, [], ◌∷◌, arith, length, All, ltb,
}
use blind_llm_eyes.Base.Floats.{Floats}
use blind_llm_eyes.Proxy.Adaptive.{
  sign_bit, Sample, Cfg, Controller, pushed, p90, evaluate, decreased, increased, adjust,
  record_sample, record_all, count_errors, millis, error_rate,
}
use blind_llm_eyes.Proxy.Adaptive.Quantile.{All-p90}
use blind_llm_eyes.Proxy.Adaptive.Steps.{IsDue, disabled, kept, due, record_sample_due, recorded}
use blind_llm_eyes.Proxy.Adaptive.Invariant.{HasRoom, IsSound, IsValid, full_total, pushed-IsValid}

module _ (floats : Floats) where
  open floats use {
    Float, le, lt, eq, zero_f, of_int, mul, div, floor, floor-mul-le, div_zero, lt_zero,
  }

  decreased-le :
      (c : Cfg floats) (limit : ℕ)
      → IsSound floats c
      → c.min_limit ≤ limit
      → decreased floats c limit ≤ limit
  unfolding decreased
  decreased-le c limit v h =
      ground (arith, floor-mul-le limit c.decrease_ratio v.ratio_number v.ratio_pos v.ratio_below)

  evaluate_error :
      (c : Cfg floats) (ss : List Sample) (p limit : ℕ)
      → IsSound floats c
      → c.min_limit ≤ limit
      → 0 < count_errors ss
      → 0 < length ss
      → (evaluate floats c ss p limit).0 ≤ limit
  unfolding evaluate
  evaluate_error c ss p limit v h e n =
      ground (arith, decreased-le c limit v h, div_zero (count_errors ss) (length ss) n)

  evaluate_fast :
      (c : Cfg floats) (ss : List Sample) (p limit : ℕ)
      → p < c.fast_threshold_ms
      → c.fast_threshold_ms ≤ c.slow_threshold_ms
      → le c.error_threshold zero_f ≡ false
      → count_errors ss ≡ 0
      → 0 < length ss
      → (evaluate floats c ss p limit).0 ≡ increased floats c limit
  unfolding evaluate
  evaluate_fast c ss p limit f s t e n = ground (
    arith,
    div_zero (count_errors ss) (length ss) n,
    lt_zero c.error_threshold (error_rate floats ss) t,
  )

  evaluate_slow :
      (c : Cfg floats) (ss : List Sample) (p limit : ℕ)
      → c.slow_threshold_ms < p
      → (evaluate floats c ss p limit).0 ≡ decreased floats c limit
  unfolding evaluate
  evaluate_slow c ss p limit s = ground arith

  -- A window that is due is evaluated at its percentile.
  due_limit :
      (now : ℕ) (s : Sample) (a b : Controller floats)
      → IsValid floats a
      → a.cfg.enabled ≡ true
      → IsDue floats now (pushed floats s a)
      → record_sample floats now s a ≡ some b
      → (p : ℕ) × (p90 floats (pushed floats s a).samples ≡ some p)
        × (b.limit ≡ (evaluate floats a.cfg (pushed floats s a).samples p a.limit).0)
  unfolding adjust
  due_limit now s a b v on d r =
      let (p, e) = full_total floats now (pushed floats s a) (pushed-IsValid floats s a v) d.0 in
      let q = some_eq (sym r ∙ record_sample_due floats now s a p on d e) in
      (p, e, ap (λ (c : Controller floats). c.limit) q)

  full_pos :
      (s : Sample) (a : Controller floats)
      → IsValid floats a
      → ltb (length (pushed floats s a).samples) a.cfg.sample_window ≡ false
      → 0 < length (pushed floats s a).samples
  full_pos s a v h = ground (arith, v.sound.window_pos)

  -- While a failed call is in the window, no sample raises the limit.
  pub errors_never_raise :
      (now : ℕ) (s : Sample) (a b : Controller floats)
      → IsValid floats a
      → 0 < count_errors (pushed floats s a).samples
      → record_sample floats now s a ≡ some b
      → b.limit ≤ a.limit
  errors_never_raise now s a b v h r = elim (recorded floats now s a) [
    | disabled off e ↦ rw (some_eq (sym r ∙ e)) (omega arith)
    | kept on not_due e ↦ rw (some_eq (sym r ∙ e)) (omega arith)
    | due on d ↦
        let (p, _, e) = due_limit now s a b v on d r in
        rw e (evaluate_error a.cfg _ p a.limit v.sound v.at_least h (full_pos s a v d.0))
  ]

  -- Additive increase: a due window without errors, of which every call was faster than the fast
  -- threshold, raises the limit by the step, up to the maximum, if their sum does not wrap around.
  pub fast_window_raises :
      (now : ℕ) (s : Sample) (a b : Controller floats)
      → HasRoom floats a.cfg
      → IsValid floats a
      → a.cfg.enabled ≡ true
      → a.cfg.fast_threshold_ms ≤ a.cfg.slow_threshold_ms
      → le a.cfg.error_threshold zero_f ≡ false
      → IsDue floats now (pushed floats s a)
      → All (λ x. x.exec_ms < a.cfg.fast_threshold_ms) (pushed floats s a).samples
      → count_errors (pushed floats s a).samples ≡ 0
      → record_sample floats now s a ≡ some b
      → b.limit ≡ min a.cfg.max_limit (a.limit + a.cfg.increase_step)
  unfolding increased
  fast_window_raises now s a b room v on order t d fast none_failed r =
      let (p, e, q) = due_limit now s a b v on d r in
      let f = All-p90 floats (λ x. x < a.cfg.fast_threshold_ms) _ p fast e in
      q
      ∙ evaluate_fast a.cfg _ p a.limit f order t none_failed (full_pos s a v d.0)
      ∙ ground (arith, v.at_most)

  -- Multiplicative decrease: a due window of which every call was slower than the slow threshold
  -- scales the limit by the ratio, down to the minimum, and so never raises it.
  pub slow_window_lowers :
      (now : ℕ) (s : Sample) (a b : Controller floats)
      → IsValid floats a
      → a.cfg.max_limit < sign_bit
      → a.cfg.enabled ≡ true
      → IsDue floats now (pushed floats s a)
      → All (λ x. a.cfg.slow_threshold_ms < x.exec_ms) (pushed floats s a).samples
      → record_sample floats now s a ≡ some b
      → (b.limit ≡ max a.cfg.min_limit (floor (mul (of_int a.limit) a.cfg.decrease_ratio)))
        × (b.limit ≤ a.limit)
  unfolding decreased
  slow_window_lowers now s a b v room on d slow r =
      let (p, e, q) = due_limit now s a b v on d r in
      let f = All-p90 floats (λ x. a.cfg.slow_threshold_ms < x) _ p slow e in
      let g = q ∙ evaluate_slow a.cfg _ p a.limit f in
      (g ∙ ground (arith, v.at_most), rw g (decreased-le a.cfg a.limit v.sound v.at_least))

  hot_step :
      (now t : ℕ) (s : Sample) (a b : Controller floats)
      → a.last_adjust ≡ some t
      → now - t < millis a.cfg.cooldown_ms
      → record_sample floats now s a ≡ some b
      → (b.limit ≡ a.limit) × (b.last_adjust ≡ a.last_adjust) × (b.cfg ≡ a.cfg)
  hot_step now t s a b l h r = elim (recorded floats now s a) [
    | disabled off e ↦ rw (some_eq (sym r ∙ e)) (refl, refl, refl)
    | kept on not_due e ↦ rw (some_eq (sym r ∙ e)) (refl, refl, refl)
    | due on d ↦ absurd (ground (arith, d.1))
  ]

  record_all_cons :
      (now : ℕ) (s : Sample) (ss : List (ℕ × Sample)) (a b : Controller floats)
      → record_all floats ((now, s) ∷ ss) a ≡ some b
      → (m : Controller floats) × (record_sample floats now s a ≡ some m)
        × (record_all floats ss m ≡ some b)
  unfolding record_all
  record_all_cons now s ss a b r = elim (Option-cases (record_sample floats now s a)) [
    | inl e ↦ absurd (none-ne-some (rw (e, record_all) at r))
    | inr (m, e) ↦ (m, e, rw (e, record_all) at r)
  ]

  cooldown_loop :
      (cool t : ℕ) (ss : List (ℕ × Sample)) (a b : Controller floats)
      → a.cfg.cooldown_ms ≡ cool
      → a.last_adjust ≡ some t
      → All (λ x. x.0 - t < millis cool) ss
      → record_all floats ss a ≡ some b
      → b.limit ≡ a.limit
  cooldown_loop cool t [] a b c l h r =
      unfold record_all in ap (λ (c : Controller floats). c.limit) (sym (some_eq r))
  cooldown_loop cool t ((now, s) ∷ ss) a b c l h r =
      let (m, e, f) = record_all_cons now s ss a b r in
      let (same, when, cfg) = hot_step now t s a m l (rw c h.0) e in
      cooldown_loop cool t ss m b (ap (λ (c : Cfg floats). c.cooldown_ms) cfg ∙ c) (when ∙ l) h.1 f
      ∙ same

  -- After an adjustment the limit stands still until the cooldown has passed, whatever samples come.
  pub cooldown_holds :
      (ss : List (ℕ × Sample)) (t : ℕ) (a b : Controller floats)
      → a.last_adjust ≡ some t
      → All (λ x. x.0 - t < millis a.cfg.cooldown_ms) ss
      → record_all floats ss a ≡ some b
      → b.limit ≡ a.limit
  cooldown_holds ss t a b l h r = cooldown_loop a.cfg.cooldown_ms t ss a b refl l h r
