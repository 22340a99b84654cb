-- ===== src/Proxy/Hosts/Loops.antt =====
-- When the guard takes a URL for the proxy's own.
use blind_llm_eyes.Base.{
  ◌||◌, ap, ◌≡◌, ◌↔◌, refl, sym, ◌∙◌, String, str_eq, eq_iff, true, false, none, some, arith,
  Bool-cases, Option-cases, inl, inr, ◌⊎◌,
}
use blind_llm_eyes.Proxy.Hosts.{Net, Url, default_port, normalize_host, is_self_referential_url}

-- The host and the port that a URL leads to: the port is written, or it is that of the scheme.
abbrev pub LeadsTo : Net → String → String → String → Type 0
LeadsTo net url h p =
    (u : Url) × (net.parse_url url ≡ some u)
    × (str_eq u.host "" ≡ false)
    × ((net.split_host_port u.host ≡ some (h, p))
        ⊎ ((net.split_host_port u.host ≡ none) × (h ≡ u.host) × (p ≡ default_port u.scheme)))

-- The URL leads to the port that the proxy listens on, at a host that has the same normal form.
abbrev pub IsOwn : Net → String → String → Type 0
IsOwn net url listen =
    (h : String) × (p : String) × (own : String) × LeadsTo net url h p
    × (net.split_host_port listen ≡ some (own, p))
    × (normalize_host net h ≡ normalize_host net own)

own_is_found :
    (net : Net) (url listen : String)
    → str_eq url "" ≡ false
    → str_eq listen "" ≡ false
    → IsOwn net url listen
    → is_self_referential_url net url listen ≡ true
unfolding is_self_referential_url
own_is_found net url listen ne le (h, p, own, (u, parsed, host, inl split), own_split, same) =
    ground
      (arith, (eq_iff (normalize_host net h) (normalize_host net own)).1 same, (eq_iff p p).1 refl)
own_is_found net url listen ne le
      (h, p, own, (u, parsed, host, inr (split, is_host, is_port)), own_split, same) =
    ground (
      arith,
      (eq_iff (normalize_host net u.host) (normalize_host net own)).1
          (ap (normalize_host net) (sym is_host) ∙ same),
      (eq_iff (default_port u.scheme) p).1 (sym is_port),
    )

found-IsOwn :
    (net : Net) (url listen : String)
    → is_self_referential_url net url listen ≡ true
    → IsOwn net url listen
unfolding is_self_referential_url
found-IsOwn net url listen found = elim (Bool-cases (str_eq url "" || str_eq listen "")) [
  | inl e ↦ absurd (ground arith)
  | inr e ↦ elim (Option-cases (net.parse_url url)) [
    | inl f ↦ absurd (ground arith)
    | inr (u, f) ↦ elim (Bool-cases (str_eq u.host "")) [
      | inl g ↦ absurd (ground arith)
      | inr g ↦ elim (Option-cases (net.split_host_port listen)) [
        | inl k ↦ absurd (ground arith)
        | inr (own, k) ↦ elim (Option-cases (net.split_host_port u.host)) [
          | inl s ↦ (
            u.host,
            own.1,
            own.0,
            (u, f, g, inr (s, refl, sym ((eq_iff (default_port u.scheme) own.1).0 (ground arith)))),
            k,
            (eq_iff (normalize_host net u.host) (normalize_host net own.0)).0 (ground arith),
          )
          | inr (hp, s) ↦ (
            hp.0,
            own.1,
            own.0,
            (u, f, g, inl (s ∙ ap (λ x. some (hp.0, x)) ((eq_iff hp.1 own.1).0 (ground arith)))),
            k,
            (eq_iff (normalize_host net hp.0) (normalize_host net own.0)).0 (ground arith),
          )
        ]
      ]
    ]
  ]
]

-- The guard takes a URL for the proxy's own exactly if it leads to the port that the proxy listens
-- on, at a host with the same normal form, provided that neither text is empty.
pub self_referential_iff :
    (net : Net) (url listen : String)
    → str_eq url "" ≡ false
    → str_eq listen "" ≡ false
    → is_self_referential_url net url listen ≡ true ↔ IsOwn net url listen
self_referential_iff net url listen ne le =
    (found-IsOwn net url listen, own_is_found net url listen ne le)
