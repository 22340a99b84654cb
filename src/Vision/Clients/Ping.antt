-- ===== src/Vision/Clients/Ping.antt =====
-- vision/ping.go: the probes of the two services, and the same of cli/ping_upstream.go. A context that
-- ends sooner than a probe stands in its timeout.
use blind_llm_eyes.Base.{
  ℕ, String, ◌≡◌, refl, ◌≢◌, ◌↔◌, inl, inr, Bool, true, false, not, ◌||◌, none, [], ◌∷◌, arith,
  ◌==◌, if◌then◌else◌, Bool-cases, pos,
}
use Prim.Native.String.{◌++◌ as ◌++ₛ◌}
use blind_llm_eyes.Base.Results.{Result, ok, err, ◌>>◌, reject}
use blind_llm_eyes.Vision.Clients.{
  HttpRequest, Payload, Web, Sent, unreachable, unreadable, responded, text_part, parts,
}
use blind_llm_eyes.Vision.Clients.Build.{Provider, mimo, openai, trim_slashes}

pub data PingError : Type 0 where
  request_build_failed unreachable_endpoint : PingError
  auth_failed : ℕ → PingError

-- The error of a read of the body is not looked at.
abbrev by_status : ℕ → Result PingError (Unit {0})
by_status status = if status == 401 || status == 403 then err (auth_failed status) else ok tt

-- classifyPing and classifyUpstreamPing
unfoldable pub classify_ping : Sent → Result PingError (Unit {0})
classify_ping unreachable = err unreachable_endpoint
classify_ping (unreadable status) = by_status status
classify_ping (responded status body) = by_status status

unfoldable pub ping_payload : String → Bool → Payload
ping_payload model thinking_disabled = record {
  model = model;
  system = none;
  messages = record { role = "user"; content = parts (text_part "ping" ∷ []) } ∷ [];
  max_tokens = pos 1;
  thinking_disabled = thinking_disabled;
}

abbrev pub ping_request : ℕ → Provider → HttpRequest
ping_request timeout (mimo c) = record {
  url = c.base_url ++ₛ "/v1/messages";
  authorization = "Bearer " ++ₛ c.api_key;
  timeout = pos timeout;
  body = ping_payload c.model true;
}
ping_request timeout (openai c) = record {
  url = c.base_url ++ₛ "/chat/completions";
  authorization = "Bearer " ++ₛ c.api_key;
  timeout = pos timeout;
  body = ping_payload c.model false;
}

abbrev pub upstream_request : (base_url api_key model : String) → HttpRequest
upstream_request base_url api_key model = record {
  url = trim_slashes base_url ++ₛ "/v1/messages";
  authorization = "Bearer " ++ₛ api_key;
  timeout = pos 10000000000;
  body = ping_payload model false;
}

module _ (web : Web) where
  open web use {valid_url, send}

  unfoldable pub probe : HttpRequest → Result PingError (Unit {0})
  probe r = reject (not (valid_url r.url)) request_build_failed >> classify_ping (send r)

  -- Client.Ping and OpenAIClient.Ping
  unfoldable pub ping : ℕ → Provider → Result PingError (Unit {0})
  ping timeout p = probe (ping_request timeout p)

  unfoldable pub ping_upstream : (base_url api_key model : String) → Result PingError (Unit {0})
  ping_upstream base_url api_key model = probe (upstream_request base_url api_key model)

  -- The address is one, and the service answers with a status that is not 401 or 403.
  abbrev pub Accepts : Sent → Type 0
  Accepts unreachable = ⊥
  Accepts (unreadable status) = (status ≢ 401) × (status ≢ 403)
  Accepts (responded status body) = (status ≢ 401) × (status ≢ 403)

  by_status_iff : (status : ℕ) → (by_status status ≡ ok tt) ↔ ((status ≢ 401) × (status ≢ 403))
  by_status_iff status = (λ h. ground (arith, h), λ h. ground (arith, h))

  classify_ping_iff : (s : Sent) → (classify_ping s ≡ ok tt) ↔ Accepts s
  unfolding classify_ping
  classify_ping_iff unreachable = ((λ h. cc), (λ h. absurd h))
  classify_ping_iff (unreadable status) = by_status_iff status
  classify_ping_iff (responded status body) = by_status_iff status

  pub probe_iff :
      (r : HttpRequest) → (probe r ≡ ok tt) ↔ ((valid_url r.url ≡ true) × Accepts (send r))
  unfolding probe reject ◌>>◌
  probe_iff r = elim (Bool-cases (valid_url r.url)) [
    | inl e ↦
        rw e (
          (λ h. (refl, (classify_ping_iff (send r)).0 h)),
          (λ h. (classify_ping_iff (send r)).1 h.1),
        )
    | inr e ↦ rw e ((λ h. cc), (λ h. cc))
  ]
