-- ===== src/Config/Ready.antt =====
-- What the settings that Load returns are good for.
use blind_llm_eyes.Base.{
  ℤ, pos, negsuc, ltb_ℤ, ◌≤ℤ◌, ◌≡◌, ◌≢◌, ◌⊎◌, inl, inr, refl, subst, sym, ◌∙◌, String, str_eq,
  eq_iff, Bool, true, false, not, ◌&&◌, if◌then◌else◌, List, [], ◌∷◌, arith, Bool-cases,
}
use blind_llm_eyes.Base.Floats.{Floats}
use blind_llm_eyes.Base.Results.{ok, >>=-eq-ok, reject->>-eq-ok, or_err->>=-eq-ok, ok_eq}
use blind_llm_eyes.Messages.Validate.{trim_space}
use blind_llm_eyes.Config.{ProviderCfg, AdaptiveCfg, CacheCfg, Config, Outside}
use blind_llm_eyes.Config.Load.{default_int, default_str, load_cache, override_env}
use blind_llm_eyes.Config.Providers.{
  default_int_pos, not_empty, AreUsable, load_providers-AreUsable,
}
use blind_llm_eyes.Config.Whole.{
  is_empty, default_share, validate, load_adaptive, load_parsed, load,
}

abbrev pub IsCacheKind : String → Type 0
IsCacheKind k = (k ≡ "lru") ⊎ (k ≡ "twotier")

not_less : (a b : ℤ) → ltb_ℤ b a ≡ false → a ≤ℤ b
not_less (pos a) (pos b) h = ground arith
not_less (pos a) (negsuc b) h = ground arith
not_less (negsuc a) (pos b) h = ground arith
not_less (negsuc a) (negsuc b) h = ground arith

less_denied : (b : Bool) → not b ≡ false → b ≡ true
less_denied true h = refl
less_denied false h = cc

known_kind_or :
    (k : String) → not (str_eq k "lru") && not (str_eq k "twotier") ≡ false → IsCacheKind k
known_kind_or k h = elim (Bool-cases (str_eq k "lru")) [
  | inl e ↦ inl (ground (arith, eq_iff k "lru"))
  | inr e ↦ inr (ground (arith, eq_iff k "twotier"))
]

vision_or :
    (ps : List ProviderCfg) (url : String)
    → is_empty ps && str_eq url "" ≡ false
    → (ps ≢ []) ⊎ (url ≢ "")
vision_or [] url h = inr (ground (arith, eq_iff url ""))
vision_or (p ∷ ps) url h = inl (λ e. cc)

limit_pos : (n : ℤ) → pos 1 ≤ℤ (if ltb_ℤ n (pos 1) then pos 4 else n)
limit_pos (pos n) = ground arith
limit_pos (negsuc n) = ground arith

validate_ok :
    {Float : Type 0} (c d : Config Float)
    → validate c ≡ ok d
    → (trim_space c.listen ≢ "")
      × (record c {
        concurrency_limit =
            if ltb_ℤ c.concurrency_limit (pos 1) then pos 4 else c.concurrency_limit;
      }
          ≡ d)
unfolding validate
validate_ok c d h = elim (Bool-cases (str_eq (trim_space c.listen) "")) [
  | inl e ↦ absurd (ground (arith, h))
  | inr e ↦ (not_empty (trim_space c.listen) "" e, ok_eq (sym (rw e refl) ∙ h))
]

module _ (floats : Floats) where
  open floats use {
    Float, le, zero_f, one_f, three_quarters, three_quarters_pos, three_quarters_below,
  }

  -- The limits of the controller are in order, and its factor shrinks.
  abbrev pub IsControl : AdaptiveCfg Float → Type 0
  IsControl a =
      (pos 1 ≤ℤ a.min_limit)
      × (a.min_limit ≤ℤ a.max_limit)
      × (ltb_ℤ a.fast_threshold_ms a.slow_threshold_ms ≡ true)
      × (pos 1 ≤ℤ a.sample_window)
      × (pos 1 ≤ℤ a.increase_step)
      × (le a.decrease_ratio zero_f ≡ false)
      × (le one_f a.decrease_ratio ≡ false)

  abbrev pub IsReady : Config Float → Type 0
  IsReady c =
      (trim_space c.listen ≢ "")
      × (c.upstream.base_url ≢ "")
      × ((c.vision_providers ≢ []) ⊎ (c.vision.base_url ≢ ""))
      × AreUsable c.vision_providers
      × IsCacheKind c.cache.kind
      × (pos 1 ≤ℤ c.cache.max_entries)
      × (pos 1 ≤ℤ c.concurrency_limit)
      × (pos 1 ≤ℤ c.max_body_bytes)
      × IsControl c.adaptive_concurrency

  share_bounds :
      (x : Float)
      → (le (default_share floats three_quarters x) zero_f ≡ false)
        × (le one_f (default_share floats three_quarters x) ≡ false)
  share_bounds x = ground (arith, three_quarters_pos, three_quarters_below)

  load_adaptive-IsControl :
      (given a : AdaptiveCfg Float) → load_adaptive floats given ≡ ok a → IsControl a
  unfolding load_adaptive
  load_adaptive-IsControl given a h =
      let (ordered, h0) = reject->>-eq-ok _ h in
      let (apart, h1) = reject->>-eq-ok _ h0 in
      subst IsControl (ok_eq h1) (
        default_int_pos 1 given.min_limit (omega arith),
        not_less (default_int 1 given.min_limit) (default_int 12 given.max_limit) ordered,
        less_denied _ apart,
        default_int_pos 10 given.sample_window (omega arith),
        default_int_pos 1 given.increase_step (omega arith),
        (share_bounds given.decrease_ratio).0,
        (share_bounds given.decrease_ratio).1,
      )

  module _ (out : Outside Float) where
    load_cache_kind :
        (given c : CacheCfg)
        → load_cache out given ≡ ok c
        → IsCacheKind c.kind × (pos 1 ≤ℤ c.max_entries)
    unfolding load_cache
    load_cache_kind given c h =
        let (known, h0) = reject->>-eq-ok _ h in
        let (ttl, timed, h1) = >>=-eq-ok h0 in
        subst (λ d. IsCacheKind d.kind × (pos 1 ≤ℤ d.max_entries)) (ok_eq h1)
          (
            known_kind_or (default_str "lru" given.kind) known,
            default_int_pos 500 given.max_entries (omega arith),
          )

    load_parsed-IsReady : (given c : Config Float) → load_parsed floats out given ≡ ok c → IsReady c
    unfolding load_parsed override_env
    load_parsed-IsReady given c h =
        let (vision, visioned, h0) = >>=-eq-ok h in
        let (cache, cached, h1) = >>=-eq-ok h0 in
        let (adaptive, adapted, h2) = >>=-eq-ok h1 in
        let (providers, provided, h3) = >>=-eq-ok h2 in
        let (upstream, h4) = reject->>-eq-ok _ h3 in
        let (visible, h5) = reject->>-eq-ok _ h4 in
        let (listening, e) = validate_ok _ c h5 in
        subst IsReady e (
          listening,
          not_empty _ "" upstream,
          vision_or providers _ visible,
          load_providers-AreUsable out given.vision_providers providers provided,
          (load_cache_kind given.cache cache cached).0,
          (load_cache_kind given.cache cache cached).1,
          limit_pos (default_int 4 given.concurrency_limit),
          default_int_pos 20971520 given.max_body_bytes (omega arith),
          load_adaptive-IsControl given.adaptive_concurrency adaptive adapted,
        )

    -- If Load succeeds, the settings name an address to listen on and an upstream, and list
    -- providers or name the address of a single vision service, whose model may be empty; the
    -- providers have distinct, non-empty names, known types, addresses, keys and models, and a
    -- threshold for large images, a cap and a count of failures of at least 1; the kind of cache
    -- is one of the two; the entries of the cache in memory, the concurrency limit, the size of a
    -- body, and the minimum, the window and the step of the controller are at least 1; its minimum
    -- is not above its maximum, and its fast threshold is below its slow one; and its ratio is not
    -- found to be 0 or less, nor 1 or more, which holds of NaN too.
    pub load-IsReady : (path : String) (c : Config Float) → load floats out path ≡ ok c → IsReady c
    unfolding load
    load-IsReady path c h =
        let (file, present, h0) = or_err->>=-eq-ok _ h in
        let (given, parsed, h1) = or_err->>=-eq-ok _ h0 in load_parsed-IsReady given c h1
