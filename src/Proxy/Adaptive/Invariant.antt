-- ===== src/Proxy/Adaptive/Invariant.antt =====
-- The limit stays in its range, the window within its size, and no sample makes the controller
-- panic.
use blind_llm_eyes.Base.{
  ℕ, ◌≤◌, ◌<◌, ◌≡◌, refl, ◌∙◌, false, some, List, [], ◌∷◌, ◌++◌, arith, length, length-append,
  length-drop, ltb, positive_or_pos, ◌+◌, sym, subst,
}
use blind_llm_eyes.Base.Floats.{Floats}
use blind_llm_eyes.Proxy.Adaptive.{
  sign_bit, Sample, Settings, Cfg, Controller, normalize, new_controller, push_sample, p90,
  evaluate, adjust, record_sample, pushed, record_all, clamp,
}
use blind_llm_eyes.Proxy.Adaptive.Quantile.{p90_total}
use blind_llm_eyes.Proxy.Adaptive.Steps.{disabled, kept, due, record_sample_due, recorded}

clamp_range : (lo hi v : ℕ) → lo ≤ hi → (lo ≤ clamp lo hi v) × (clamp lo hi v ≤ hi)
clamp_range lo hi v h = ground arith

push_window :
    (w : ℕ) (ss : List Sample) (s : Sample) → length ss ≤ w → length (push_sample w ss s) ≤ w
unfolding push_sample
push_window w ss s h = ground (arith, length-append ss (s ∷ []), length-drop 1 (ss ++ s ∷ []))

module _ (floats : Floats) where
  open floats use {
    Float, is_nan, le, zero_f, one_f, three_quarters, three_quarters_number, three_quarters_pos,
    three_quarters_below, floor-mul-le,
  }

  pub record IsSound (c : Cfg floats) : Type 0 where
    pub min_pos : 0 < c.min_limit
    pub min_le_max : c.min_limit ≤ c.max_limit
    pub window_pos : 0 < c.sample_window
    pub ratio_number : is_nan c.decrease_ratio ≡ false
    pub ratio_pos : le c.decrease_ratio zero_f ≡ false
    pub ratio_below : le one_f c.decrease_ratio ≡ false

  pub record IsValid (a : Controller floats) : Type 0 where
    pub sound : IsSound a.cfg
    pub at_least : a.cfg.min_limit ≤ a.limit
    pub at_most : a.limit ≤ a.cfg.max_limit
    pub window : length a.samples ≤ a.cfg.sample_window

  -- The sum of the limit and the step does not wrap around.
  abbrev pub HasRoom : Cfg floats → Type 0
  HasRoom c = c.max_limit + c.increase_step < sign_bit

  normalize-IsSound :
      (s : Settings floats) → is_nan s.decrease_ratio ≡ false → IsSound (normalize floats s)
  unfolding normalize
  normalize-IsSound s h = ground (
    arith,
    positive_or_pos 1 s.min_limit (omega arith),
    positive_or_pos 12 s.max_limit (omega arith),
    positive_or_pos 10 s.sample_window (omega arith),
    three_quarters_number,
    three_quarters_pos,
    three_quarters_below,
  )

  -- Whatever the settings, a ratio that is not a number excepted, the controller starts valid.
  pub new_controller-IsValid :
      (s : Settings floats) → is_nan s.decrease_ratio ≡ false → IsValid (new_controller floats s)
  unfolding new_controller
  new_controller-IsValid s h =
      let v = normalize-IsSound s h in
      record {
        sound = v;
        at_least = unfold normalize in (clamp_range _ _ _ v.min_le_max).0;
        at_most = unfold normalize in (clamp_range _ _ _ v.min_le_max).1;
        window = omega arith;
      }

  evaluate_range :
      (c : Cfg floats) (ss : List Sample) (p limit : ℕ)
      → IsSound c
      → HasRoom c
      → c.min_limit ≤ limit
      → limit ≤ c.max_limit
      → (c.min_limit ≤ (evaluate floats c ss p limit).0)
        × ((evaluate floats c ss p limit).0 ≤ c.max_limit)
  unfolding evaluate
  evaluate_range c ss p limit v room lo hi =
      ground (arith, floor-mul-le limit c.decrease_ratio v.ratio_number v.ratio_pos v.ratio_below)

  adjust-IsValid :
      (now : ℕ) (a : Controller floats) (p : ℕ)
      → HasRoom a.cfg
      → IsValid a
      → IsValid (adjust floats now a p)
  unfolding adjust
  adjust-IsValid now a p room v =
      let r = evaluate_range a.cfg a.samples p a.limit v.sound room v.at_least v.at_most in
      record { sound = v.sound; at_least = r.0; at_most = r.1; window = v.window }

  pub pushed-IsValid :
      (s : Sample) (a : Controller floats) → IsValid a → IsValid (pushed floats s a)
  pushed-IsValid s a v = record {
    sound = v.sound;
    at_least = v.at_least;
    at_most = v.at_most;
    window = push_window a.cfg.sample_window a.samples s v.window;
  }

  pub full_total :
      (now : ℕ) (a : Controller floats)
      → IsValid a
      → ltb (length a.samples) a.cfg.sample_window ≡ false
      → (p : ℕ) × (p90 floats a.samples ≡ some p)
  full_total now a v full = p90_total floats a.samples (ground (arith, v.sound.window_pos))

  -- A sample never makes a valid controller panic, and leaves it valid with its configuration.
  pub record_sample_total :
      (now : ℕ) (s : Sample) (a : Controller floats)
      → HasRoom a.cfg
      → IsValid a
      → (b : Controller floats) × (record_sample floats now s a ≡ some b)
        × IsValid b
        × (b.cfg ≡ a.cfg)
  record_sample_total now s a room v = elim (recorded floats now s a) [
    | disabled off e ↦ (a, e, v, refl)
    | kept on not_due e ↦ (pushed floats s a, e, pushed-IsValid s a v, refl)
    | due on d ↦
        let w = pushed-IsValid s a v in
        let (p, e) = full_total now (pushed floats s a) w d.0 in
        (
          adjust floats now (pushed floats s a) p,
          record_sample_due floats now s a p on d e,
          adjust-IsValid now (pushed floats s a) p room w,
          unfold adjust in refl,
        )
  ]

  -- If the sum of the maximum and the step does not wrap around, no history of samples makes a
  -- valid controller panic: the result is a valid controller with the same configuration, so its
  -- limit lies between the minimum and the maximum.
  pub record_all_total :
      (ss : List (ℕ × Sample)) (a : Controller floats)
      → HasRoom a.cfg
      → IsValid a
      → (b : Controller floats) × (record_all floats ss a ≡ some b) × IsValid b × (b.cfg ≡ a.cfg)
  unfolding record_all
  record_all_total [] a room v = (a, refl, v, refl)
  record_all_total ((now, s) ∷ ss) a room v =
      let (b, e, w, c) = record_sample_total now s a room v in
      let (d, f, x, c') = record_all_total ss b (subst HasRoom (sym c) room) w in
      (d, rw (e, record_all) f, x, c' ∙ c)
