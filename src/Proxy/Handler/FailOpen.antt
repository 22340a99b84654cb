-- ===== src/Proxy/Handler/FailOpen.antt =====
-- The handler with fail_open: no image stops a request.
use mathlib.Core.List.{Permᴰ}
use blind_llm_eyes.Proxy.Handler.Outcomes.{Schedules}
use blind_llm_eyes.Base.{
  suc, length-map, ap₂, ℕ, ◌≡◌, refl, sym, ap, ◌∙◌, true, false, Option, none, some, length, arith,
  inr, List,
}
use blind_llm_eyes.Base.Caches.{CacheOps}
use blind_llm_eyes.Messages.Content.{Request, find_image_blocks}
use blind_llm_eyes.Messages.Rewrite.{normalize_system_messages}
use blind_llm_eyes.Messages.Validate.{validate}
use blind_llm_eyes.Proxy.Hosts.{Net}
use blind_llm_eyes.Proxy.Images.{Task, Work, ImageError, process_images}
use blind_llm_eyes.Proxy.Images.Counts.{fail_open_never_fails}
use blind_llm_eyes.Proxy.Handler.{
  World, Deps, Prepared, contains, vision_loops, rewrite_images, prepare, finish_images, start_work,
  context_text,
}

pub length-Permᴰ : {A : Type 0} {xs ys : List A} → Permᴰ xs ys → length xs ≡ length ys
length-Permᴰ Permᴰ.nil = refl
length-Permᴰ (Permᴰ.cons e p) = ap suc (length-Permᴰ p)
length-Permᴰ (Permᴰ.swap e d) = refl
length-Permᴰ (Permᴰ.trans p q) = length-Permᴰ p ∙ length-Permᴰ q

module _ (ops : CacheOps) (net : Net) (world : World) (deps : Deps) where
  finish_ok :
      (r : Request) (moved n : ℕ) (x : Work ops × Option ImageError)
      → x.1 ≡ none
      → x.0.rewritten ≡ n
      → (p : Prepared) × ((finish_images ops net world deps r moved x).0 ≡ some p)
        × (p.rewritten ≡ n)
  finish_ok r moved n (w, none) ok count = (_, refl, count)
  finish_ok r moved n (w, some e) ok count = absurd (ground arith)

  -- The goroutines that the images of a request start.
  abbrev tasks_of : Request → List Task
  tasks_of r = world.schedule (context_text ops net world deps r) r (find_image_blocks r.messages)

  prepared :
      (r : Request) (c : ops.Cache) (p : Prepared)
      → contains deps.vision_capable_models (net.to_lower r.model) ≡ false
      → validate (normalize_system_messages r).0 ≡ none
      → (rewrite_images ops net world deps
          (normalize_system_messages r).0
          (normalize_system_messages r).1
          c).0
        ≡ some p
      → (prepare ops net world deps r c).0 ≡ inr p
  unfolding prepare
  prepared r c p blind valid made = rw (prepare, blind, valid, made) refl

  -- The goroutines are as many as the images.
  length-tasks_of :
      Schedules ops net world deps
      → (r : Request) → length (tasks_of r) ≡ length (find_image_blocks r.messages)
  length-tasks_of all r =
      sym (length-map (λ t. t.ptr) (tasks_of r))
      ∙ sym (length-Permᴰ (all (context_text ops net world deps r) r))

  -- With fail_open, goroutines that are those of the images found, a vision provider that is not
  -- the proxy itself and a model that cannot read images: every request that passes the validation
  -- goes on, and as many images count as rewritten as FindImageBlocks finds in it once its system
  -- messages are moved.
  pub fail_open_goes_on :
      (r : Request) (c : ops.Cache)
      → Schedules ops net world deps
      → deps.fail_open ≡ true
      → vision_loops net deps ≡ false
      → contains deps.vision_capable_models (net.to_lower r.model) ≡ false
      → validate (normalize_system_messages r).0 ≡ none
      → (p : Prepared) × ((prepare ops net world deps r c).0 ≡ inr p)
        × (p.rewritten ≡ length (find_image_blocks (normalize_system_messages r).0.messages))
  unfolding prepare rewrite_images
  fail_open_goes_on r c all open_ no_loop blind valid =
      let n = normalize_system_messages r in
      let w = start_work ops net world deps n.0 c in
      let b = fail_open_never_fails ops (tasks_of n.0) w in
      let x = process_images ops deps.fail_open (vision_loops net deps) (tasks_of n.0) w in
      let same : process_images ops true false (tasks_of n.0) w ≡ x =
        ap₂ (λ o l. process_images ops o l (tasks_of n.0) w) (sym open_) (sym no_loop) in
      let f =
        finish_ok n.0 n.1 (length (tasks_of n.0)) x (ap (λ y. y.1) (sym same) ∙ b.0)
          (ap (λ y. y.0.rewritten) (sym same) ∙ omega (arith, b.1)) in
      (f.0, prepared r c f.0 blind valid f.1, f.2 ∙ length-tasks_of all n.0)
