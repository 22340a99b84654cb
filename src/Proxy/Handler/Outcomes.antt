-- ===== src/Proxy/Handler/Outcomes.antt =====
-- What the handler of the messages does with a request, on each of its ways.
use mathlib.Core.List.{Permᴰ}
use blind_llm_eyes.Base.{
  some_eq, ap, ℕ, ◌≡◌, refl, sym, ◌∙◌, String, Bool, true, false, Option, none, some, [], map,
  arith, Bool-cases, Option-cases, inl, inr, ◌⊎◌,
}
use blind_llm_eyes.Base.Caches.{CacheOps}
use blind_llm_eyes.Messages.Content.{Request, find_image_blocks}
use blind_llm_eyes.Messages.Rewrite.{normalize_system_messages}
use blind_llm_eyes.Messages.Validate.{validate}
use blind_llm_eyes.Messages.Accepted.{RequestOk, validate_iff}
use blind_llm_eyes.Proxy.Hosts.{Net}
use blind_llm_eyes.Proxy.Images.{Work, ImageError, process_images}
use blind_llm_eyes.Proxy.Images.Replaced.{images_replaced}
use blind_llm_eyes.Proxy.Handler.{
  World, Deps, Prepared, contains, vision_loops, rewrite_images, prepare, finish_images, start_work,
  context_text,
}

module _ (ops : CacheOps) (net : Net) (world : World) (deps : Deps) where
  open world use {Body, unmarshal, marshal, upstream, schedule}

  -- The goroutines are those of the images found.
  abbrev pub Schedules : Type 0
  Schedules =
      (context : String) (r : Request)
      → Permᴰ (find_image_blocks r.messages)
          (map (λ t. t.ptr) (schedule context r (find_image_blocks r.messages)))

  images_of : Request → ops.Cache → Work ops × Option ImageError
  images_of r c =
      process_images ops deps.fail_open (vision_loops net deps)
        (schedule (context_text ops net world deps r) r (find_image_blocks r.messages))
        (start_work ops net world deps r c)

  finished :
      (r : Request) (moved : ℕ) (x : Work ops × Option ImageError) (p : Prepared)
      → (finish_images ops net world deps r moved x).0 ≡ some p
      → (x.1 ≡ none) × (p.request.messages ≡ x.0.messages)
  finished r moved (w, some e) p h = absurd (ground arith)
  finished r moved (w, none) p h = (refl, ap (λ q. q.request.messages) (sym (some_eq h)))

  rewrite_images_complete :
      (r : Request) (moved : ℕ) (c : ops.Cache) (p : Prepared)
      → Schedules
      → (rewrite_images ops net world deps r moved c).0 ≡ some p
      → find_image_blocks p.request.messages ≡ []
  unfolding rewrite_images images_of
  rewrite_images_complete r moved c p all ok =
      let context = context_text ops net world deps r in
      let f = finished r moved (images_of r c) p ok in
      ap find_image_blocks f.1
      ∙ images_replaced ops deps.fail_open (vision_loops net deps)
          (schedule context r (find_image_blocks r.messages)) (start_work ops net world deps r c)
          (all context r) f.0

  passthrough_of : ℕ ⊎ Prepared → Bool
  passthrough_of (inl status) = true
  passthrough_of (inr p) = p.passthrough

  skipped :
      (r : Request) (c : ops.Cache)
      → contains deps.vision_capable_models (net.to_lower r.model) ≡ true
      → passthrough_of (prepare ops net world deps r c).0 ≡ true
  unfolding prepare passthrough_of
  skipped r c e = rw e refl

  not_skipped :
      (r : Request) (c : ops.Cache) (p : Prepared)
      → (prepare ops net world deps r c).0 ≡ inr p
      → p.passthrough ≡ false
      → contains deps.vision_capable_models (net.to_lower r.model) ≡ true
      → ⊥
  unfolding passthrough_of
  not_skipped r c p ok rewritten e =
      let h : p.passthrough ≡ true = sym (ap passthrough_of ok) ∙ skipped r c e in ground (arith, h)

  -- When a request is rewritten, and the goroutines are those of the images found, then the
  -- request was valid after its system messages had been moved, and FindImageBlocks, which looks
  -- at the messages of users and in them at tool results down to a fixed depth, finds no image in
  -- the prepared request.
  pub prepared_holds_no_image :
      (r : Request) (c : ops.Cache) (p : Prepared)
      → Schedules
      → (prepare ops net world deps r c).0 ≡ inr p
      → p.passthrough ≡ false
      → (find_image_blocks p.request.messages ≡ []) × RequestOk (normalize_system_messages r).0
  unfolding prepare
  prepared_holds_no_image r c p all ok rewritten =
      let n = normalize_system_messages r in
      elim (Bool-cases (contains deps.vision_capable_models (net.to_lower r.model))) [
        | inl e ↦ absurd (not_skipped r c p ok rewritten e)
        | inr e ↦ elim (Option-cases (validate n.0)) [
          | inr (x, f) ↦ absurd (ground arith)
          | inl f ↦ elim (Option-cases (rewrite_images ops net world deps n.0 n.1 c).0) [
            | inl g ↦ absurd (ground arith)
            | inr (q, g) ↦
                (rewrite_images_complete n.0 n.1 c p all (ground arith), (validate_iff n.0).0 f)
          ]
        ]
      ]

  -- The proxy refuses a request with 400 or 502 before it goes on, and with no other status: the
  -- guard of the vision provider's address gives 502 too.
  pub prepare_refuses :
      (r : Request) (c : ops.Cache) (status : ℕ)
      → (prepare ops net world deps r c).0 ≡ inl status
      → (status ≡ 400) ⊎ (status ≡ 502)
  unfolding prepare
  prepare_refuses r c status h =
      let n = normalize_system_messages r in
      elim (Bool-cases (contains deps.vision_capable_models (net.to_lower r.model))) [
        | inl e ↦ absurd (ground arith)
        | inr e ↦ elim (Option-cases (validate n.0)) [
          | inr (x, f) ↦ inl (ground arith)
          | inl f ↦ elim (Option-cases (rewrite_images ops net world deps n.0 n.1 c).0) [
            | inl g ↦ inr (ground arith)
            | inr (q, g) ↦ absurd (ground arith)
          ]
        ]
      ]
