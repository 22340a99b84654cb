-- ===== src/Config/Providers.antt =====
-- What the loop over vision_providers lets through.
use blind_llm_eyes.Base.{
  ℕ, zero, suc, ◌<◌, ℤ, pos, negsuc, ◌≤ℤ◌, ◌≡◌, ◌≢◌, refl, subst, ap, ◌∙◌, sym, String, str_eq,
  eq_iff, Bool, true, not, false, List, [], ◌∷◌, All, arith,
}
use blind_llm_eyes.Base.Results.{
  Result, ok, err, >>=-eq-ok, reject->>-eq-ok, ok_eq, or_err->>=-eq-ok,
}
use blind_llm_eyes.Vision.Pool.{contains}
use blind_llm_eyes.Config.{ProviderCfg, ProviderError, Outside}
use blind_llm_eyes.Config.Load.{
  at_index, default_int, fill_provider, known_kind, load_provider, load_providers,
}

pub default_int_pos : (d : ℕ) (x : ℤ) → 0 < d → pos 1 ≤ℤ default_int d x
default_int_pos d (pos zero) h = omega arith
default_int_pos d (pos (suc n)) h = omega arith
default_int_pos d (negsuc n) h = omega arith

-- A provider that can be built and pooled.
abbrev pub IsUsable : ProviderCfg → Type 0
IsUsable p =
    (p.name ≢ "")
    × (known_kind p.kind ≡ true)
    × (p.base_url ≢ "")
    × (p.api_key ≢ "")
    × (p.model ≢ "")
    × (pos 1 ≤ℤ p.large_image_threshold)
    × (pos 1 ≤ℤ p.description_cap)
    × (pos 1 ≤ℤ p.circuit_breaker.failure_threshold)

-- Every provider is usable, and no name stands twice.
abbrev pub AreUsable : List ProviderCfg → Type 0
AreUsable [] = Unit
AreUsable (p ∷ ps) = IsUsable p × All (λ q. p.name ≢ q.name) ps × AreUsable ps

fill_provider-name : (p : ProviderCfg) → (fill_provider p).name ≡ p.name
unfolding fill_provider
fill_provider-name p = ground arith

pub not_empty : (s t : String) → str_eq s t ≡ false → s ≢ t
not_empty s t h = ground (arith, eq_iff s t)

not_known : (b : Bool) → not b ≡ false → b ≡ true
not_known true h = refl
not_known false h = cc

split_fresh :
    (n : String) (names : List String) (ps : List ProviderCfg)
    → All (λ p. contains p.name (n ∷ names) ≡ false) ps
    → All (λ p. n ≢ p.name) ps × All (λ p. contains p.name names ≡ false) ps
unfolding contains
split_fresh n names [] h = (tt, tt)
split_fresh n names (p ∷ ps) h =
    let rest = split_fresh n names ps h.1 in
    ((ground (arith, eq_iff n p.name), rest.0), (ground arith, rest.1))

module _ {Float : Type 0} (out : Outside Float) where
  load_provider-IsUsable :
      (names : List String) (given p : ProviderCfg)
      → load_provider out names given ≡ ok p
      → IsUsable p × (contains p.name names ≡ false) × (p.name ≡ given.name)
  unfolding load_provider
  load_provider-IsUsable names given p h =
      let (named, h0) = reject->>-eq-ok _ h in
      let (fresh, h1) = reject->>-eq-ok _ h0 in
      let (known, h2) = reject->>-eq-ok _ h1 in
      let (based, h3) = reject->>-eq-ok _ h2 in
      let (keyed, h4) = reject->>-eq-ok _ h3 in
      let (modelled, h5) = reject->>-eq-ok _ h4 in
      let (d, timed, h6) = or_err->>=-eq-ok _ h5 in
      let (ld, large, h7) = or_err->>=-eq-ok _ h6 in
      let (rd, reset, h8) = or_err->>=-eq-ok _ h7 in
      subst (λ q. IsUsable q × (contains q.name names ≡ false) × (q.name ≡ given.name)) (ok_eq h8)
        (
          (
            (λ e. not_empty given.name "" named (sym (fill_provider-name given) ∙ e)),
            not_known (known_kind (fill_provider given).kind) known,
            not_empty (fill_provider given).base_url "" based,
            not_empty (fill_provider given).api_key "" keyed,
            not_empty (fill_provider given).model "" modelled,
            default_int_pos 1000000 (fill_provider given).large_image_threshold (omega arith),
            default_int_pos 1000 (fill_provider given).description_cap (omega arith),
            default_int_pos 5 (fill_provider given).circuit_breaker.failure_threshold (omega arith),
          ),
          ap (λ n. contains n names) (fill_provider-name given) ∙ fresh,
          fill_provider-name given,
        )

  at_index_ok :
      (i : ℕ) (r : Result ProviderError ProviderCfg) {p : ProviderCfg}
      → at_index i r ≡ ok p
      → r ≡ ok p
  at_index_ok i (ok q) h = ap ok (ok_eq h)
  at_index_ok i (err e) h = cc

  fresh_names :
      (i : ℕ) (names : List String) (given ps : List ProviderCfg)
      → load_providers out i names given ≡ ok ps
      → AreUsable ps × All (λ p. contains p.name names ≡ false) ps
  unfolding load_providers
  fresh_names i names [] ps h =
      subst (λ qs. AreUsable qs × All (λ p. contains p.name names ≡ false) qs) (ok_eq h) (tt, tt)
  fresh_names i names (g ∷ gs) ps h =
      let (p, hp, h1) = >>=-eq-ok h in
      let (qs, hqs, h2) = >>=-eq-ok h1 in
      let (usable, fresh, name) = load_provider-IsUsable names g p (at_index_ok i _ hp) in
      let (others, all) = fresh_names (suc i) (g.name ∷ names) gs qs hqs in
      let (apart, rest) = split_fresh g.name names qs all in
      subst (λ qs. AreUsable qs × All (λ q. contains q.name names ≡ false) qs) (ok_eq h2)
        ((usable, rw name apart, others), (fresh, rest))

  pub load_providers-AreUsable :
      (given ps : List ProviderCfg) → load_providers out 0 [] given ≡ ok ps → AreUsable ps
  load_providers-AreUsable given ps h = (fresh_names 0 [] given ps h).0
