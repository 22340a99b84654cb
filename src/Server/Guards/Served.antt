-- ===== src/Server/Guards/Served.antt =====
-- Whom the guards let through.
use blind_llm_eyes.Base.{◌≡◌, ◌≢◌, ◌↔◌, ◌⊎◌, inl, inr, str_eq, eq_iff, true, arith, Bool-cases}
use blind_llm_eyes.Config.Providers.{not_empty}
use blind_llm_eyes.Proxy.Hosts.{Net}
use blind_llm_eyes.Server.Guards.{
  HttpReq, PprofCfg, passed, provided_token, with_metrics_auth, is_loopback_remote_addr, wrap,
}

-- The pprof endpoints are served if and only if they are enabled and the request has the configured
-- token, or, where no token is configured, comes from a loopback or unspecified address.
pub wrap_iff :
    (net : Net) (cfg : PprofCfg) (r : HttpReq)
    → (wrap net cfg r ≡ passed) ↔ (
        (cfg.enabled ≡ true)
        × (((cfg.auth_token ≢ "") × (provided_token r ≡ cfg.auth_token))
            ⊎ ((cfg.auth_token ≡ "") × (is_loopback_remote_addr net r.remote_addr ≡ true))))
unfolding wrap with_metrics_auth
wrap_iff net cfg r = elim (Bool-cases (str_eq cfg.auth_token "")) [
  | inl e ↦
      let none_set : cfg.auth_token ≡ "" = ground (arith, eq_iff cfg.auth_token "") in
      (
        (λ h. (ground arith, inr (none_set, ground arith))),
        λ h. ground (arith, eq_iff cfg.auth_token ""),
      )
  | inr e ↦
      let is_set = not_empty cfg.auth_token "" e in
      (
        (λ h.
            (ground arith, inl (is_set, ground (arith, eq_iff (provided_token r) cfg.auth_token)))),
        λ h. ground (arith, is_set, eq_iff (provided_token r) cfg.auth_token),
      )
]
