-- ===== src/Cli/Doctor/Checked.antt =====
-- The upstream and the vision models in the checks of the doctor.
use blind_llm_eyes.Base.{
  String, ◌≡◌, refl, sym, subst, ◌↔◌, Bool, true, false, Option, List, [], ◌∷◌, arith, All, ◌≢◌,
  ◌⊎◌, inl, inr, ◌&&◌, eq_iff, str_eq, if◌then◌else◌, Bool-cases, ℤ,
}
use blind_llm_eyes.Base.Results.{Result, ok, err}
use blind_llm_eyes.Cache.Sqlite.{Row}
use blind_llm_eyes.Cache.Sqlite.Open.{milliseconds, open_sqlite}
use blind_llm_eyes.Config.Providers.{not_empty}
use blind_llm_eyes.Config.{ProviderCfg, Config}
use blind_llm_eyes.Cli.Probes.{
  DbProbe, Surroundings, is_err, deep_check_vision, or_ten_thousand, run_doctor_check_db_writable,
  failing,
}
use blind_llm_eyes.Vision.Clients.{ClientError}
use blind_llm_eyes.Cli.CcSwitch.{is_self_referential_url}
use blind_llm_eyes.Proxy.Hosts.{Net}
use blind_llm_eyes.Cli.Doctor.{
  vision_fails, visions_fail_of, providers_fail, built_fails, upstream_fails,
}
use blind_llm_eyes.Vision.Clients.Build.{
  build_single_provider, Provider, BuildError, build_provider,
}
use blind_llm_eyes.Vision.Clients.Ping.{ping_upstream, upstream_request, ping, ping_request}
use blind_llm_eyes.Cli.Probes.Sound.{
  or-eq-false, Answered, probe-Answered, IsWritable, db_iff_opened,
}

module _ {Float : Type 0} (c : Config Float) where
  -- Only a cache of two tiers has a database.
  pub db_iff :
      (d : DbProbe) (rows : List Row)
      → (failing (run_doctor_check_db_writable d c rows).0 ≡ false)
        ↔ ((c.cache.kind ≢ "twotier") ⊎ IsWritable d c rows)
  unfolding run_doctor_check_db_writable
  db_iff d rows = elim (Bool-cases (str_eq c.cache.kind "twotier")) [
    | inl e ↦
        let (to, from) = db_iff_opened d rows (
          open_sqlite d.opening c.cache.db_path (or_ten_thousand c.cache.sqlite_max_entries)
            (milliseconds c.cache.sqlite_ttl) rows) in
        rw e (
          (λ h. inr (to h)),
          (λ w. elim w [
            | inl n ↦ absurd (n (ground (arith, eq_iff c.cache.kind "twotier")))
            | inr q ↦ from q
          ]),
        )
    | inr e ↦ rw e ((λ h. inl (not_empty c.cache.kind "twotier" e)), (λ w. refl))
  ]

  module _ (s : Surroundings) (net : Net) (atoi : String → Option ℤ) where
    abbrev pub leads_back : String → Bool
    leads_back url = is_self_referential_url net atoi url c.listen

    abbrev pub IsUpstreamFine : String → Type 0
    IsUpstreamFine model =
        (c.upstream.base_url ≡ "")
        ⊎ ((leads_back c.upstream.base_url ≡ false)
            × Answered s.web (upstream_request c.upstream.base_url c.upstream.api_key model))

    pub upstream_iff :
        (model : String) → (upstream_fails s net atoi c model ≡ false) ↔ IsUpstreamFine model
    unfolding upstream_fails ping_upstream
    upstream_iff model = elim (Bool-cases (str_eq c.upstream.base_url "")) [
      | inl e ↦ rw e ((λ h. inl (ground (arith, eq_iff c.upstream.base_url ""))), (λ w. refl))
      | inr e ↦ rw e (behind_url e)
    ]
      where
        behind_url :
            str_eq c.upstream.base_url "" ≡ false
            → ((if leads_back c.upstream.base_url
                  then true
                  else is_err (ping_upstream s.web c.upstream.base_url c.upstream.api_key model))
                ≡ false)
              ↔ IsUpstreamFine model
        behind_url e =
            let (to, from) =
              probe-Answered s.web
                (upstream_request c.upstream.base_url c.upstream.api_key model) in
            elim (Bool-cases (leads_back c.upstream.base_url)) [
              | inl f ↦ rw f (
                (λ h. cc),
                (λ w. elim w [
                  | inl u ↦ absurd (not_empty c.upstream.base_url "" e u)
                  | inr v ↦ v.0
                ]),
              )
              | inr f ↦ rw f (
                (λ h. inr (refl, to h)),
                (λ w. elim w [
                  | inl u ↦ absurd (not_empty c.upstream.base_url "" e u)
                  | inr v ↦ from v.1
                ]),
              )
            ]

    abbrev pub Works : (deep : Bool) → Provider → Type 0
    Works deep p =
        Answered s.web (ping_request 10000000000 p)
        × (deep ≡ true → (t : String) × (deep_check_vision s p ≡ ok t))

    abbrev pub IsBuilt : (deep : Bool) → Result BuildError Provider → Type 0
    IsBuilt deep built = (p : Provider) × (built ≡ ok p) × Works deep p

    -- The address is not that of the proxy, and the client that is built works.
    abbrev pub IsVisionFine : (deep : Bool) → String → Result BuildError Provider → Type 0
    IsVisionFine deep url built = (leads_back url ≡ false) × IsBuilt deep built

    deep_iff :
        (deep : Bool) (r : Result ClientError String)
        → (deep && is_err r ≡ false) ↔ (deep ≡ true → (t : String) × (r ≡ ok t))
    deep_iff true (ok t) = ((λ h e. (t, refl)), (λ h. refl))
    deep_iff true (err e) = ((λ h. cc), (λ h. let (t, f) = h refl in cc))
    deep_iff false r = ((λ h e. cc), (λ h. refl))

    Works-iff :
        (deep : Bool) (p : Provider) → (built_fails s net atoi deep (ok p) ≡ false) ↔ Works deep p
    unfolding ping
    Works-iff deep p =
        let (split, join) =
          or-eq-false (is_err (ping s.web 10000000000 p))
            (deep && is_err (deep_check_vision s p)) in
        let (to, from) = probe-Answered s.web (ping_request 10000000000 p) in
        let (deeper, back) = deep_iff deep (deep_check_vision s p) in
        ((λ h. (to (split h).0, deeper (split h).1)), (λ v. join (from v.0, back v.1)))

    IsBuilt-iff :
        (deep : Bool) (r : Result BuildError Provider)
        → (built_fails s net atoi deep r ≡ false) ↔ IsBuilt deep r
    IsBuilt-iff deep (err e) = ((λ h. cc), (λ v. cc))
    IsBuilt-iff deep (ok p) = (
      (λ h. (p, refl, (Works-iff deep p).0 h)),
      (λ v.
          subst (λ r. built_fails s net atoi deep r ≡ false) (sym v.1)
            ((Works-iff deep v.0).1 v.2)),
    )

    vision_iff :
        (deep : Bool) (url : String) (r : Result BuildError Provider)
        → (vision_fails s net atoi deep c.listen url r ≡ false) ↔ IsVisionFine deep url r
    unfolding vision_fails
    vision_iff deep url r = elim (Bool-cases (leads_back url)) [
      | inl e ↦ rw e ((λ h. cc), (λ v. cc))
      | inr e ↦ rw e ((λ h. (refl, (IsBuilt-iff deep r).0 h)), (λ v. (IsBuilt-iff deep r).1 v.1))
    ]

    providers_iff :
        (deep : Bool) (ps : List ProviderCfg)
        → (providers_fail s net atoi deep c.listen ps ≡ false)
          ↔ All (λ p. IsVisionFine deep p.base_url (build_provider p)) ps
    unfolding providers_fail
    providers_iff deep [] = ((λ h. tt), (λ h. refl))
    providers_iff deep (p ∷ ps) =
        let (split, join) =
          or-eq-false (vision_fails s net atoi deep c.listen p.base_url (build_provider p))
            (providers_fail s net atoi deep c.listen ps) in
        let (one, back) = vision_iff deep p.base_url (build_provider p) in
        let (rest, all) = providers_iff deep ps in
        ((λ h. (one (split h).0, rest (split h).1)), (λ a. join (back a.0, all a.1)))

    -- Every provider works, or where none is listed, the single one, if it has an address.
    abbrev pub AreVisionsFine : (deep : Bool) → List ProviderCfg → Type 0
    AreVisionsFine deep (p ∷ ps) =
        All (λ p. IsVisionFine deep p.base_url (build_provider p)) (p ∷ ps)
    AreVisionsFine deep [] =
        (c.vision.base_url ≡ "")
        ⊎ IsVisionFine deep c.vision.base_url (build_single_provider c.vision)

    pub visions_iff :
        (deep : Bool) (ps : List ProviderCfg)
        → (visions_fail_of s net atoi deep c.listen c.vision ps ≡ false) ↔ AreVisionsFine deep ps
    visions_iff deep (p ∷ ps) = providers_iff deep (p ∷ ps)
    visions_iff deep [] = elim (Bool-cases (str_eq c.vision.base_url "")) [
      | inl e ↦ rw e ((λ h. inl (ground (arith, eq_iff c.vision.base_url ""))), (λ w. refl))
      | inr e ↦
          let (to, from) = vision_iff deep c.vision.base_url (build_single_provider c.vision) in
          rw e (
            (λ h. inr (to h)),
            (λ w. elim w [ inl u ↦ absurd (not_empty c.vision.base_url "" e u) | inr v ↦ from v ]),
          )
    ]
