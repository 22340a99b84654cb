-- ===== src/Proxy/Handler.antt =====
-- proxy/handler.go, handleMessages and handleCountTokens: from a request to the answer. The network,
-- JSON and the vision model stand in the record World; log lines are left out.
pub mod Outcomes
pub mod Ways
pub mod Verbatim
pub mod FailOpen
use Prim.Native.String.{◌++◌ as append}
use blind_llm_eyes.Base.{
  inl, inr, ◌⊎◌, ℕ, ℤ, String, str_eq, ltb, Bool, true, false, not, ◌&&◌, ◌||◌, if◌then◌else◌,
  Option, none, some, List, [], ◌∷◌,
}
use blind_llm_eyes.Base.Caches.{CacheOps}
use blind_llm_eyes.Modelutil.{sanitize_model}
use blind_llm_eyes.Messages.Content.{
  Blocks, block, nil, cons, Request, RequestPtr, find_image_blocks, append_blocks,
}
use blind_llm_eyes.Messages.Context.{extract_conversation_context}
use blind_llm_eyes.Messages.Rewrite.{normalize_system_messages}
use blind_llm_eyes.Messages.Validate.{validate}
use blind_llm_eyes.Proxy.Format.{format_int}
use blind_llm_eyes.Proxy.Headers.{Header, set, upstream_headers, copy_headers}
use blind_llm_eyes.Proxy.Hosts.{Net, is_self_referential_url}
use blind_llm_eyes.Proxy.Images.{Task, Work, ImageError, process_images}

-- What reading the body up to the limit gives.
pub data ReadResult (Body : Type 0) : Type 0 where
  too_large read_failed : ReadResult Body
  body : Body → ReadResult Body

pub record HttpRequest (Body : Type 0) : Type 0 where
  pub is_post : Bool
  pub headers : Header
  pub content : ReadResult Body

pub record Forward (Body : Type 0) : Type 0 where
  pub url : String
  pub headers : Header
  pub content : Body

pub record Response (Body : Type 0) : Type 0 where
  pub status : ℕ
  pub headers : Header
  pub content : Body

pub data UpstreamResult (Body : Type 0) : Type 0 where
  build_failed do_failed : UpstreamResult Body
  responded : Response Body → UpstreamResult Body

-- What a client gets: an error of the proxy with its status, or the upstream's response.
pub data Answer (Body : Type 0) : Type 0 where
  refused : ℕ → Answer Body
  relayed : Response Body → Answer Body

-- json.Unmarshal and json.Marshal of a request, the upstream, and the goroutines of the
-- images found, in the order of their work; they see the context of the conversation.
pub record World : Type 1 where
  pub Body : Type 0
  pub unmarshal : Body → Option Request
  pub marshal : Request → Option Body
  pub upstream : Forward Body → UpstreamResult Body
  pub schedule : (context : String) → Request → List RequestPtr → List Task

-- HandlerDeps, as far as the handler reads them, after NewHandler's defaults.
pub record Deps : Type 0 where
  pub upstream_base_url : String
  pub upstream_api_key : String
  pub fail_open : Bool
  -- GetBaseURL of the vision provider, if it has one
  pub vision_base_url : Option String
  pub vision_capable_models : List String
  pub listen_addr : String
  pub context_rounds : ℤ
  pub context_max_chars : ℤ

unfoldable pub contains : List String → String → Bool
contains [] x = false
contains (y ∷ ys) x = str_eq y x || contains ys x

-- h.deps.ListenAddr != "" && isSelfReferentialURL(…)
unfoldable pub loops : Net → String → Deps → Bool
loops net url deps =
    not (str_eq deps.listen_addr "") && is_self_referential_url net url deps.listen_addr

unfoldable pub vision_loops : Net → Deps → Bool
vision_loops net deps = elim deps.vision_base_url [ none ↦ false | some url ↦ loops net url deps ]

abbrev pub postfix_text : String
postfix_text =
    "IMPORTANT: Some image blocks in this conversation have been replaced with <BLIND_LLM_EYES_IMAGE>...</BLIND_LLM_EYES_IMAGE> text blocks. Treat the content inside those tags as if you saw the image directly — never reply that you cannot see the image, never guess what might be missing. If the description is insufficient, ask the user to share the original image."

abbrev pub postfix : Blocks
postfix =
    cons
      (block
        (record { raw = none; typ = "text"; text = postfix_text; source = none; is_error = false })
        nil)
      nil

-- The request that goes on, and what the rest of the handler reads of the counters.
pub record Prepared : Type 0 where
  pub request : Request
  pub rewritten : ℕ
  pub cached : ℕ
  pub system_moved : ℕ
  pub passthrough : Bool

module _ (ops : CacheOps) (net : Net) (world : World) (deps : Deps) where
  open ops use {Cache}
  open world use {Body, unmarshal, marshal, upstream, schedule}

  abbrev pub start_work : Request → Cache → Work ops
  start_work r c = record {
    messages = r.messages;
    cache = c;
    rewritten = 0;
    cached = 0;
    failed = 0;
    total_lookups = 0;
    cache_hits = 0;
    samples = [];
    metrics = [];
  }

  -- Stages 3 to 5: find the images, process them, and add the system instruction.
  abbrev pub finish_images : Request → ℕ → Work ops × Option ImageError → Option Prepared × Cache
  finish_images r moved (w, some e) = (none, w.cache)
  finish_images r moved (w, none) = (
    some (record {
      request = record r {
        messages = w.messages;
        system = if ltb 0 w.rewritten then append_blocks r.system postfix else r.system;
      };
      rewritten = w.rewritten;
      cached = w.cached;
      system_moved = moved;
      passthrough = false;
    }),
    w.cache,
  )

  -- Stage 3.5. ExtractConversationContext itself gives "" for rounds that are not positive.
  abbrev pub context_text : Request → String
  context_text r =
      extract_conversation_context net.to_lower r.messages deps.context_rounds
        deps.context_max_chars

  unfoldable pub rewrite_images : Request → ℕ → Cache → Option Prepared × Cache
  rewrite_images r moved c = finish_images r moved (
      process_images ops deps.fail_open (vision_loops net deps)
        (schedule (context_text r) r (find_image_blocks r.messages)) (start_work r c))

  -- Stages 2.4 to 5, or none of them for a model that reads images itself. An error is a status.
  unfoldable pub prepare : Request → Cache → (ℕ ⊎ Prepared) × Cache
  prepare r c =
      let normalized = normalize_system_messages r in
      let images = rewrite_images normalized.0 normalized.1 c in
      if contains deps.vision_capable_models (net.to_lower r.model)
      then (
        inr (record {
          request = r;
          rewritten = 0;
          cached = 0;
          system_moved = 0;
          passthrough = true;
        }),
        c,
      )
      else elim (validate normalized.0) [
        | some e ↦ (inl 400, c)
        | none ↦ elim images.0 [ none ↦ (inl 502, images.1) | some p ↦ (inr p, images.1) ]
      ]

  -- Stage 6: the body is written anew only if the request has changed.
  unfoldable pub outgoing_body : Body → Bool → Prepared → Body
  outgoing_body raw model_sanitized p =
      if ltb 0 p.rewritten || ltb 0 p.system_moved || model_sanitized
      then elim (marshal p.request) [ none ↦ raw | some b ↦ b ]
      else raw

  unfoldable pub format_count_header : ℕ → ℕ → String
  format_count_header rewritten cached =
      append (format_int rewritten) (append " rewritten, " (append (format_int cached) " cached"))

  abbrev pub result_header : ℕ → ℕ → Bool → String
  result_header rewritten cached passthrough =
      if passthrough
      then append (format_count_header rewritten cached) ", passthrough=1"
      else format_count_header rewritten cached

  abbrev pub relay : String → UpstreamResult Body → Answer Body
  relay hdr build_failed = refused 500
  relay hdr do_failed = refused 502
  relay hdr (responded r) =
      relayed
        (record r { headers = copy_headers (λ k. false) (set "X-Blind-Llm-Eyes" hdr r.headers) [] })

  -- Stages 6 to 8: forward to the upstream, and copy its response.
  unfoldable pub forward : Header → Body → String → Answer Body
  forward headers content hdr =
      let url = append deps.upstream_base_url "/v1/messages" in
      if loops net url deps
      then refused 508
      else relay hdr (
          upstream (record {
            url = url;
            headers = upstream_headers deps.upstream_api_key headers;
            content = content;
          }))

  abbrev pub forward_prepared : Header → Body → Bool → (ℕ ⊎ Prepared) × Cache → Answer Body × Cache
  forward_prepared headers raw model_sanitized (inl status, c) = (refused status, c)
  forward_prepared headers raw model_sanitized (inr p, c) = (
    forward headers (outgoing_body raw model_sanitized p)
        (result_header p.rewritten p.cached p.passthrough),
    c,
  )

  unfoldable pub handle_body : Header → Body → Cache → Answer Body × Cache
  handle_body headers raw c = elim (unmarshal raw) [
    | none ↦ (forward headers raw (result_header 0 0 false), c)
    | some r ↦
        let model = sanitize_model r.model in
        forward_prepared headers raw (not (str_eq model r.model))
          (prepare (record r { model = model }) c)
  ]

  unfoldable pub handle_messages : HttpRequest Body → Cache → Answer Body × Cache
  handle_messages q c = if not q.is_post then (refused 405, c) else elim q.content [
    | too_large ↦ (refused 413, c)
    | read_failed ↦ (refused 400, c)
    | body raw ↦ handle_body q.headers raw c
  ]

  abbrev pub relay_tokens : UpstreamResult Body → Answer Body
  relay_tokens build_failed = refused 500
  relay_tokens do_failed = refused 502
  relay_tokens (responded r) =
      relayed (record r { headers = copy_headers (λ k. false) r.headers [] })

  -- limit is what io.LimitReader lets through: a body that is too long is cut, without an error.
  unfoldable pub handle_count_tokens : (limit : Body → Body) → Header → Option Body → Answer Body
  handle_count_tokens limit headers none = refused 400
  handle_count_tokens limit headers (some raw) =
      let url = append deps.upstream_base_url "/v1/messages/count_tokens" in
      if loops net url deps
      then refused 508
      else relay_tokens (
          upstream (record {
            url = url;
            headers = upstream_headers deps.upstream_api_key headers;
            content = limit raw;
          }))
