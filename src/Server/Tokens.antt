-- ===== src/Server/Tokens.antt =====
-- What requests can do to the server.
use blind_llm_eyes.Base.{
  subst, sym, if◌then◌else◌, else_part, ◌≡◌, ◌≢◌, ◌⊎◌, inl, inr, refl, String, eq_iff, false, List,
  [], ◌∷◌, All, arith,
}
use blind_llm_eyes.Base.Floats.{Floats}
use blind_llm_eyes.Config.{Outside}
use blind_llm_eyes.Config.Reload.{run_reloads, reload}
use blind_llm_eyes.Proxy.Hosts.{Net}
use blind_llm_eyes.Server.Guards.{HttpReq}
use blind_llm_eyes.Server.{
  Server, Route, route, handle, serve_shutdown, serve_reload, serve_http, not_found, to_messages,
  to_metrics, to_healthz, to_shutdown, to_reload, to_pprof_root, to_pprof, no_route, Event, request,
  hangup, interrupt, listen_failed, Ended, stopped_by_admin, run_loop,
}

-- A request that does not have the token of the server, or is no POST.
abbrev pub IsStranger : String → HttpReq → Type 0
IsStranger token r = (r.method ≢ "POST") ⊎ (r.admin_token ≢ token)

module _ (floats : Floats) (net : Net) where
  open floats use {Float}

  stranger_shutdown :
      (r : HttpReq) (s : Server Float) → IsStranger s.admin_token r → (serve_shutdown r s).1 ≡ s
  unfolding serve_shutdown
  stranger_shutdown r s (inl h) = ground (arith, eq_iff r.method "POST")
  stranger_shutdown r s (inr h) = ground (arith, eq_iff r.admin_token s.admin_token)

  stranger_reload :
      (out : Outside Float) (r : HttpReq) (s : Server Float)
      → IsStranger s.admin_token r
      → (serve_reload floats net out r s).1 ≡ s
  unfolding serve_reload
  stranger_reload out r s (inl h) = ground (arith, eq_iff r.method "POST")
  stranger_reload out r s (inr h) = ground (arith, eq_iff r.admin_token s.admin_token)

  stranger_handle :
      (out : Outside Float) (r : HttpReq) (s : Server Float) (to : Route)
      → IsStranger s.admin_token r
      → (handle floats net out r s to).1 ≡ s
  stranger_handle out r s to_messages h = refl
  stranger_handle out r s to_metrics h = refl
  stranger_handle out r s to_healthz h = refl
  stranger_handle out r s to_shutdown h = stranger_shutdown r s h
  stranger_handle out r s to_reload h = stranger_reload out r s h
  stranger_handle out r s to_pprof_root h = refl
  stranger_handle out r s (to_pprof e) h = refl
  stranger_handle out r s no_route h = refl

  -- An event that is no request, or a request of a stranger.
  abbrev pub IsHarmless : String → Event floats net → Type 0
  IsHarmless token (request out r) = IsStranger token r
  IsHarmless token (hangup out) = Unit
  IsHarmless token interrupt = Unit
  IsHarmless token listen_failed = Unit

  -- The events that are reloads by the signal, which are all that changes the settings then.
  unfoldable pub hangups : List (Event floats net) → List (Outside Float)
  hangups [] = []
  hangups (request out r ∷ es) = hangups es
  hangups (hangup out ∷ es) = out ∷ hangups es
  hangups (interrupt ∷ es) = []
  hangups (listen_failed ∷ es) = []

  abbrev pub Unmoved :
      List (Event floats net) → Server Float → Ended floats net × Server Float → Type 0
  Unmoved es s r =
      (r.0 ≢ stopped_by_admin) × (r.1.config ≡ run_reloads floats (hangups es) s.config)

  -- No request without the token, and no request that is not a POST, stops the server or changes its
  -- settings, whatever its path: behind any events with such requests the settings are those that the
  -- reloads by the signal alone give, and the loop was not ended by a request.
  pub run_loop_strangers :
      (es : List (Event floats net)) (s : Server Float)
      → s.shutdown ≡ false
      → All (IsHarmless s.admin_token) es
      → Unmoved es s (run_loop floats net es s)
  unfolding run_loop hangups run_reloads serve_http
  run_loop_strangers [] s h a = ((λ e. cc), refl)
  run_loop_strangers (interrupt ∷ es) s h a = ((λ e. cc), refl)
  run_loop_strangers (listen_failed ∷ es) s h a = ((λ e. cc), refl)
  run_loop_strangers (hangup out ∷ es) s h a =
      run_loop_strangers es (record s { config = (reload floats out s.config).after }) h a.1
  run_loop_strangers (request out r ∷ es) s h a =
      subst
        (λ t. Unmoved es s (if t.shutdown then (stopped_by_admin, t) else run_loop floats net es t))
        (sym (stranger_handle out r s (route r.path) a.0))
        (else_part (Unmoved es s) s.shutdown (stopped_by_admin, s) (run_loop floats net es s) h
          (run_loop_strangers es s h a.1))

  -- No request for the path of count_tokens reaches the proxy.
  pub count_tokens_not_found :
      (out : Outside Float) (r : HttpReq) (s : Server Float)
      → r.path ≡ "/v1/messages/count_tokens"
      → serve_http floats net out r s ≡ (not_found, s)
  unfolding serve_http route
  count_tokens_not_found out r s h = rw h refl
