-- ===== src/Proxy/Handler/Ways.antt =====
-- The way of the handler on which nothing goes on, since the upstream is the proxy.
use Prim.Native.String.{len, ◌++◌ as append}
use text.Mathlib.TextPositions.{len-append}
use blind_llm_eyes.Base.{
  Option-cases, Bool-cases, inl, inr, ◌⊎◌, eq_iff, str_eq, not, ℕ, ◌≡◌, refl, String, Bool, true,
  false, sym, ap, ◌∙◌, ◌≢◌, arith,
}
use blind_llm_eyes.Base.Caches.{CacheOps}
use blind_llm_eyes.Modelutil.{sanitize_model}
use blind_llm_eyes.Proxy.Headers.{Header}
use blind_llm_eyes.Proxy.Hosts.{Net}
use blind_llm_eyes.Proxy.Hosts.Loops.{IsOwn, self_referential_iff}
use blind_llm_eyes.Proxy.Handler.{
  Answer, UpstreamResult, rewrite_images, Forward, ReadResult, forward_prepared, HttpRequest, World,
  Deps, Prepared, loops, prepare, outgoing_body, forward, handle_body, handle_messages, refused,
  body, too_large, read_failed,
}

content-cases :
    {B : Type 0} (x : ReadResult B)
    → ((x ≡ too_large) ⊎ (x ≡ read_failed)) ⊎ ((raw : B) × (x ≡ body raw))
content-cases too_large = inl (inl refl)
content-cases read_failed = inl (inr refl)
content-cases (body raw) = inr (raw, refl)

url_not_empty : (s : String) → str_eq (append s "/v1/messages") "" ≡ false
url_not_empty s = ground (arith, eq_iff (append s "/v1/messages") "", longer)
  where
    longer : append s "/v1/messages" ≢ ""
    longer e = omega (arith, sym (len-append s "/v1/messages") ∙ ap len e)

own_loops :
    (net : Net) (deps : Deps)
    → deps.listen_addr ≢ ""
    → IsOwn net (append deps.upstream_base_url "/v1/messages") deps.listen_addr
    → loops net (append deps.upstream_base_url "/v1/messages") deps ≡ true
unfolding loops
own_loops net deps listens own =
    let listening : str_eq deps.listen_addr "" ≡ false =
      ground (arith, listens, eq_iff deps.listen_addr "") in
    ground (
      arith,
      listening,
      (self_referential_iff net (append deps.upstream_base_url "/v1/messages") deps.listen_addr
            (url_not_empty deps.upstream_base_url) listening).1
          own,
    )

module _ (ops : CacheOps) (net : Net) (world : World) (deps : Deps) where
  open world use {Body, unmarshal, upstream}

  -- The world with another upstream.
  abbrev with_upstream : (Forward Body → UpstreamResult Body) → World
  with_upstream up = record world { upstream = up }

  abbrev messages_url : String
  messages_url = append deps.upstream_base_url "/v1/messages"

  forward_refused :
      (headers : Header) (raw : Body) (hdr : String) (up : Forward Body → UpstreamResult Body)
      → loops net messages_url deps ≡ true
      → forward ops net (with_upstream up) deps headers raw hdr ≡ refused 508
  unfolding forward
  forward_refused headers raw hdr up loop = rw loop refl

  abbrev status_of : ℕ ⊎ Prepared → ℕ
  status_of (inl status) = status
  status_of (inr p) = 508

  prepared_refused :
      (headers : Header) (raw : Body) (sanitized : Bool) (x : (ℕ ⊎ Prepared) × ops.Cache)
      (up : Forward Body → UpstreamResult Body)
      → loops net messages_url deps ≡ true
      → forward_prepared ops net (with_upstream up) deps headers raw sanitized x
        ≡ (refused (status_of x.0), x.1)
  unfolding outgoing_body
  prepared_refused headers raw sanitized (inl status, c) up loop = refl
  prepared_refused headers raw sanitized (inr p, c) up loop =
      rw (forward_refused headers (outgoing_body ops net world deps raw sanitized p) _ up loop) refl

  -- One error and one cache, whatever the upstream answers.
  abbrev IsRefused : ((Forward Body → UpstreamResult Body) → Answer Body × ops.Cache) → Type 0
  IsRefused run =
      (y : ℕ × ops.Cache) × ((up : Forward Body → UpstreamResult Body)
        → run up ≡ (refused y.0, y.1))

  body-IsRefused :
      (headers : Header) (raw : Body) (c : ops.Cache)
      → loops net messages_url deps ≡ true
      → IsRefused (λ up. handle_body ops net (with_upstream up) deps headers raw c)
  unfolding handle_body prepare rewrite_images outgoing_body
  body-IsRefused headers raw c loop = elim (Option-cases (unmarshal raw)) [
    | inl e ↦ ((508, c), λ up. rw (handle_body, e, forward_refused headers raw _ up loop) refl)
    | inr (r, e) ↦
        let clean = record r { model = sanitize_model r.model } in
        let x = prepare ops net world deps clean c in
        let dirty = not (str_eq clean.model r.model) in
        (
          (status_of x.0, x.1),
          λ up. rw (handle_body, e) (prepared_refused headers raw dirty x up loop),
        )
  ]

  messages-IsRefused :
      (q : HttpRequest Body) (c : ops.Cache)
      → loops net messages_url deps ≡ true
      → IsRefused (λ up. handle_messages ops net (with_upstream up) deps q c)
  unfolding handle_messages
  messages-IsRefused q c loop = elim (Bool-cases q.is_post) [
    | inr e ↦ ((405, c), λ up. rw e refl)
    | inl e ↦ elim (content-cases q.content) [
      | inl (inl f) ↦ ((413, c), λ up. rw (e, f) refl)
      | inl (inr f) ↦ ((400, c), λ up. rw (e, f) refl)
      | inr (raw, f) ↦
          let t = body-IsRefused q.headers raw c loop in (t.0, λ up. rw (e, f) (t.1 up))
    ]
  ]

  -- If the address of the messages at the upstream has the port that the proxy listens on, as a
  -- text, and a host with the same normal form, then the client gets an error, and nothing is
  -- forwarded: the answer and the cache are the same with any other upstream.
  pub loop_is_refused :
      (q : HttpRequest Body) (c : ops.Cache) (up : Forward Body → UpstreamResult Body)
      → deps.listen_addr ≢ ""
      → IsOwn net (append deps.upstream_base_url "/v1/messages") deps.listen_addr
      → (handle_messages ops net (record world { upstream = up }) deps q c
          ≡ handle_messages ops net world deps q c)
        × (status : ℕ) × ((handle_messages ops net world deps q c).0 ≡ refused status)
  loop_is_refused q c up listens own =
      let (y, h) = messages-IsRefused q c (own_loops net deps listens own) in
      (h up ∙ sym (h upstream), y.0, ap (λ x. x.0) (h upstream))
