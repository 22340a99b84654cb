-- ===== src/Cli/CcSwitch/Imported.antt =====
-- Which providers are imported.
use blind_llm_eyes.Base.{
  ◌≡◌, ◌≢◌, ◌⊎◌, inl, inr, refl, subst, ℤ, String, str_eq, eq_iff, Bool, true, false, not, ◌&&◌,
  if◌then◌else◌, Option, none, some, some_eq, List, [], ◌∷◌, All, arith, Bool-cases,
}
use blind_llm_eyes.Base.Results.{ok, ok_eq, >>=-eq-ok, or_err->>=-eq-ok, and_then-eq-some}
use blind_llm_eyes.Config.Providers.{not_empty}
use blind_llm_eyes.Proxy.Hosts.{Net}
use blind_llm_eyes.Cli.CcSwitch.{
  text_at, add_provider, CcSwitchProvider, ScannedRow, CcDb, CcJson, is_self_referential_url,
  provider_of, parse_cc_switch_settings, import_row, import_rows, rows_result,
  import_from_cc_switch,
}

kept_if :
    (b : Bool) (q p : CcSwitchProvider)
    → (if b then none else some q) ≡ some p
    → (b ≡ false) × (q ≡ p)
kept_if true q p h = cc
kept_if false q p h = (refl, some_eq h)

module _ (net : Net) (atoi : String → Option ℤ) (json : CcJson) (listen : String) where
  -- It has an address, which is not the proxy's own.
  abbrev pub IsUpstream : CcSwitchProvider → Type 0
  IsUpstream p =
      (p.base_url ≢ "")
      × ((listen ≡ "") ⊎ (is_self_referential_url net atoi p.base_url listen ≡ false))

  apart :
      (given : String) (q : CcSwitchProvider)
      → not (str_eq given "") && is_self_referential_url net atoi q.base_url given ≡ false
      → (given ≡ "") ⊎ (is_self_referential_url net atoi q.base_url given ≡ false)
  apart given q h = elim (Bool-cases (str_eq given "")) [
    | inl e ↦ inl (ground (arith, eq_iff given ""))
    | inr e ↦ inr (ground (arith, e))
  ]

  provider_named :
      (name : String) (env : List (String × String)) (p : CcSwitchProvider)
      → provider_of name env ≡ some p
      → p.base_url ≢ ""
  provider_named name env p h =
      let (e, q) = kept_if _ _ p h in
      subst (λ x. x.base_url ≢ "") q (not_empty (text_at "ANTHROPIC_BASE_URL" env) "" e)

  import_row-IsUpstream :
      (row : ScannedRow) (p : CcSwitchProvider)
      → import_row net atoi json listen row ≡ some p
      → IsUpstream p
  unfolding import_row parse_cc_switch_settings
  import_row-IsUpstream none p h = cc
  import_row-IsUpstream (some row) p h =
      let (q, parsed, k) =
        and_then-eq-some (parse_cc_switch_settings net atoi json row.0 row.1) _ h in
      let (top, t, h0) = and_then-eq-some _ _ parsed in
      let (raw, r, h1) = and_then-eq-some _ _ h0 in
      let (env, v, h2) = and_then-eq-some _ _ h1 in
      let (away, e) = kept_if _ q p k in
      subst IsUpstream e (provider_named row.0 env q h2, apart listen q away)

  added :
      (o : Option CcSwitchProvider) (ps : List CcSwitchProvider)
      → ((p : CcSwitchProvider) → o ≡ some p → IsUpstream p)
      → All IsUpstream ps
      → All IsUpstream (add_provider o ps)
  added none ps h a = a
  added (some p) ps h a = (h p refl, a)

  import_rows-IsUpstream :
      (rows : List ScannedRow) → All IsUpstream (import_rows net atoi json listen rows)
  unfolding import_rows
  import_rows-IsUpstream [] = tt
  import_rows-IsUpstream (r ∷ rs) =
      added (import_row net atoi json listen r) _ (import_row-IsUpstream r)
        (import_rows-IsUpstream rs)

  ended :
      (b : Bool) (qs ps : List CcSwitchProvider) → rows_result net atoi json b qs ≡ ok ps → qs ≡ ps
  ended true qs ps h = cc
  ended false qs ps h = ok_eq h

  -- Every provider that is imported has an address, and none of them leads back to the address that the
  -- proxy listens on, where that address is given.
  pub import_from_cc_switch-IsUpstream :
      (db : CcDb) (ps : List CcSwitchProvider)
      → import_from_cc_switch net atoi json db listen ≡ ok ps
      → All IsUpstream ps
  unfolding import_from_cc_switch
  import_from_cc_switch-IsUpstream db ps h =
      let (opened, o, h0) = >>=-eq-ok h in
      let (q, e, h1) = or_err->>=-eq-ok _ h0 in
      subst (All IsUpstream) (ended q.ends_with_error _ ps h1) (import_rows-IsUpstream q.rows)
