-- ===== src/Proxy/Handler/Verbatim.antt =====
-- The handler at bodies in which there is nothing to rewrite.
use blind_llm_eyes.Base.{
  ℕ, String, ◌≡◌, refl, ap, subst, ◌∙◌, ◌⊎◌, inl, inr, true, false, Option, none, some, List, [],
  ◌∷◌, map, arith, eq_iff, Bool-cases, Option-cases,
}
use mathlib.Core.List.{Permᴰ}
use Prim.Native.String.{◌++◌ as append}
use blind_llm_eyes.Proxy.Hosts.{Net}
use blind_llm_eyes.Proxy.Images.{process_images}
use blind_llm_eyes.Proxy.Handler.Outcomes.{Schedules}
use blind_llm_eyes.Proxy.Handler.FailOpen.{length-Permᴰ}
use blind_llm_eyes.Proxy.Handler.{
  context_text, start_work, finish_images, result_header, body, find_image_blocks, upstream_headers,
  forward_prepared, relay, normalize_system_messages, HttpRequest, handle_body, contains, validate,
  sanitize_model, loops, Answer, forward, handle_messages, rewrite_images, Header, outgoing_body,
  Task, Request, prepare, Prepared, World, Deps,
}
use blind_llm_eyes.Base.Caches.{CacheOps}

module _ (ops : CacheOps) (net : Net) (world : World) (deps : Deps) where
  open world use {Body, unmarshal, upstream}

  -- What the client gets of the upstream's answer to its body.
  abbrev pub relays : Header → Body → String → Answer Body
  relays headers raw hdr = relay ops net world deps hdr (
      upstream (record {
        url = append deps.upstream_base_url "/v1/messages";
        headers = upstream_headers deps.upstream_api_key headers;
        content = raw;
      }))

  forward-relays :
      (headers : Header) (raw : Body) (hdr : String)
      → loops net (append deps.upstream_base_url "/v1/messages") deps ≡ false
      → forward ops net world deps headers raw hdr ≡ relays headers raw hdr
  unfolding forward
  forward-relays headers raw hdr no_loop = rw no_loop refl

  -- The request is valid, and has no image and no system message to move.
  abbrev pub HasNothing : Request → Type 0
  HasNothing r =
      (validate (normalize_system_messages r).0 ≡ none)
      × ((normalize_system_messages r).1 ≡ 0)
      × (find_image_blocks (normalize_system_messages r).0.messages ≡ [])

  -- The body is no JSON request, or a request under a name that needs no cleaning: of a model that
  -- reads images itself, or with nothing to rewrite.
  abbrev pub NothingToDo : Option Request → Type 0
  NothingToDo none = Unit
  NothingToDo (some r) =
      (sanitize_model r.model ≡ r.model)
      × ((contains deps.vision_capable_models (net.to_lower r.model) ≡ true) ⊎ HasNothing r)

  no_tasks : (ts : List Task) → Permᴰ [] (map (λ t. t.ptr) ts) → ts ≡ []
  no_tasks [] e = refl
  no_tasks (t ∷ ts) e = absurd (ground (arith, length-Permᴰ e))

  -- What the handler prepared leaves the body as it is.
  abbrev IsUntouched : (ℕ ⊎ Prepared) × ops.Cache → Type 0
  IsUntouched (inl status, c) = ⊥
  IsUntouched (inr p, c) = (p.rewritten ≡ 0) × (p.system_moved ≡ 0)

  nothing_rewritten :
      (r : Request) (c : ops.Cache)
      → Schedules ops net world deps
      → find_image_blocks r.messages ≡ []
      → rewrite_images ops net world deps r 0 c
        ≡ finish_images ops net world deps r 0 (start_work ops net world deps r c, none)
  unfolding rewrite_images process_images
  nothing_rewritten r c all nothing =
      let ts =
        world.schedule (context_text ops net world deps r) r (find_image_blocks r.messages) in
      let started = all (context_text ops net world deps r) r in
      let idle = no_tasks ts (subst (λ ps. Permᴰ ps (map (λ t. t.ptr) ts)) nothing started) in
      rw (rewrite_images, idle, process_images) refl

  prepare-IsUntouched :
      (r : Request) (c : ops.Cache)
      → Schedules ops net world deps
      → (contains deps.vision_capable_models (net.to_lower r.model) ≡ true) ⊎ HasNothing r
      → IsUntouched (prepare ops net world deps r c)
  unfolding prepare
  prepare-IsUntouched r c all way =
      elim (Bool-cases (contains deps.vision_capable_models (net.to_lower r.model))) [
        | inl capable ↦ rw (prepare, capable) (refl, refl)
        | inr blind ↦ elim way [
          | inl capable ↦ absurd (ground arith)
          | inr (valid, still, nothing) ↦
              rw
                (
                  prepare,
                  blind,
                  valid,
                  still,
                  nothing_rewritten (normalize_system_messages r).0 c all nothing,
                )
                (refl, refl)
        ]
      ]

  outgoing_raw :
      (raw : Body) (p : Prepared)
      → p.rewritten ≡ 0
      → p.system_moved ≡ 0
      → outgoing_body ops net world deps raw false p ≡ raw
  unfolding outgoing_body
  outgoing_raw raw p none_rewritten none_moved = rw (none_rewritten, none_moved) refl

  forwarded_raw :
      (headers : Header) (raw : Body) (x : (ℕ ⊎ Prepared) × ops.Cache)
      → loops net (append deps.upstream_base_url "/v1/messages") deps ≡ false
      → IsUntouched x
      → (hdr : String) × ((forward_prepared ops net world deps headers raw false x).0
          ≡ relays headers raw hdr)
  forwarded_raw headers raw (inl status, c) no_loop e = absurd e
  forwarded_raw headers raw (inr p, c) no_loop e =
      let hdr = result_header ops net world deps p.rewritten p.cached p.passthrough in
      (
        hdr,
        ap (λ b. forward ops net world deps headers b hdr) (outgoing_raw raw p e.0 e.1)
            ∙ forward-relays headers raw hdr no_loop,
      )

  -- If a POST has a body that is no JSON request, or a request under a name that needs no
  -- cleaning, which is for a model that reads images itself or is valid without images and without
  -- system messages to move, the goroutines are those of the images found, and the guard does not
  -- take the upstream for the proxy: then the upstream is sent the body as the client sent it, and
  -- the client gets what the upstream answers to it.
  pub unchanged_verbatim :
      (q : HttpRequest Body) (raw : Body) (c : ops.Cache)
      → Schedules ops net world deps
      → q.is_post ≡ true
      → q.content ≡ body raw
      → NothingToDo (unmarshal raw)
      → loops net (append deps.upstream_base_url "/v1/messages") deps ≡ false
      → (hdr : String) × ((handle_messages ops net world deps q c).0 ≡ relays q.headers raw hdr)
  unfolding handle_messages handle_body
  unchanged_verbatim q raw c all post readable nothing no_loop =
      elim (Option-cases (unmarshal raw)) [
        | inl e ↦ (
          result_header ops net world deps 0 0 false,
          rw (post, readable, handle_body, e)
              (forward-relays q.headers raw (result_header ops net world deps 0 0 false) no_loop),
        )
        | inr (r, e) ↦
            let (clean, way) = subst NothingToDo e nothing in
            let t =
              forwarded_raw q.headers raw (prepare ops net world deps r c) no_loop
                (prepare-IsUntouched r c all way) in
            (t.0, rw (post, readable, handle_body, e, clean, (eq_iff r.model r.model).1 refl) t.1)
      ]
