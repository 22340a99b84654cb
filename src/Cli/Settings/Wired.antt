-- ===== src/Cli/Settings/Wired.antt =====
-- What is in the settings that connect writes.
use blind_llm_eyes.Base.{
  if◌then◌else◌, str_eq, eq_iff, subst, [], ◌∷◌, Bool-cases, inl, inr, refl, arith, ◌≡◌, ◌∙◌, ap,
  String, Option, some, List,
}
use blind_llm_eyes.Base.Results.{ok, >>=-eq-ok, ok_eq}
use blind_llm_eyes.Cli.Settings.{
  Json, Parsed, nil_map, entries, lookup, assign, wire, parsed_settings, keys, env_of, writable,
}

lookup-assign {ℓ} :
    {A : Type ℓ} (j k : String) (v : A) (es : List (String × A))
    → lookup j (assign k v es) ≡ (if str_eq k j then some v else lookup j es)
unfolding lookup assign
lookup-assign j k v [] = refl
lookup-assign j k v (e ∷ es) = elim (Bool-cases (str_eq e.0 k)) [
  | inl q ↦ ground (arith, eq_iff e.0 k)
  | inr q ↦ elim (Bool-cases (str_eq e.0 j)) [
    | inl r ↦ ground (arith, eq_iff k j, eq_iff e.0 k, eq_iff e.0 j)
    | inr r ↦ ground (arith, lookup-assign j k v es)
  ]
]

-- What a map prints to is read back as a map with the same entries.
abbrev pub ReadsBack : {File : Type 0} → Json File → Type 0
ReadsBack json =
    ((es : List (String × json.Raw))
      → (gs : List (String × json.Raw)) × (json.parse_file (json.print_file es) ≡ some (entries gs))
        × ((k : String) → lookup k gs ≡ lookup k es))
    × ((es : List (String × json.Raw))
        → (gs : List (String × json.Raw)) × (json.parse_raw (json.raw_map es) ≡ some (entries gs))
          × ((k : String) → lookup k gs ≡ lookup k es))

-- The settings es and the variables vars of env that were read, and what is read afterwards.
abbrev pub Wired : {File : Type 0} (json : Json File) → String → Option File → File → Type 0
Wired json url settings text =
    (es vars gs news : List (String × json.Raw)) × (raw : json.Raw) × (parsed_settings json settings
      ≡ ok (entries es))
    × (env_of json (lookup "env" es) ≡ ok (entries vars))
    × (json.parse_file text ≡ some (entries gs))
    × ((k : String) → lookup k gs ≡ (if str_eq "env" k then some raw else lookup k es))
    × (json.parse_raw raw ≡ some (entries news))
    × ((k : String)
        → lookup k news
          ≡ (if str_eq "ANTHROPIC_BASE_URL" k then some (json.raw_text url) else lookup k vars))

module _ {File : Type 0} (json : Json File) where
  writable_ok :
      (p : Parsed json.Raw) (es : List (String × json.Raw))
      → writable json p ≡ ok es
      → p ≡ entries es
  writable_ok nil_map es h = cc
  writable_ok (entries gs) es h = ap entries (ok_eq h)

  -- The text that connect writes, read again, has the address of the proxy under env, and every other
  -- setting and every other variable of env as it was.
  pub wire-Wired :
      (url : String) (settings : Option File) (text : File)
      → ReadsBack json
      → wire json url settings ≡ ok text
      → Wired json url settings text
  unfolding wire
  wire-Wired url settings text back h =
      let (top, read, h0) = >>=-eq-ok h in
      let (env, found, h1) = >>=-eq-ok h0 in
      let (vars, open_env, h2) = >>=-eq-ok h1 in
      let (es, open_top, h3) = >>=-eq-ok h2 in
      let etop = writable_ok top es open_top in
      let eenv = writable_ok env vars open_env in
      let envs = assign "ANTHROPIC_BASE_URL" (json.raw_text url) vars in
      let (gs, printed, same) = back.0 (assign "env" (json.raw_map envs) es) in
      let (news, mapped, alike) = back.1 envs in
      (
        es,
        vars,
        gs,
        news,
        json.raw_map envs,
        read ∙ ap ok etop,
        subst (λ t. env_of json (lookup "env" (keys json t)) ≡ ok env) etop found ∙ ap ok eenv,
        subst (λ t. json.parse_file t ≡ some (entries gs)) (ok_eq h3) printed,
        λ k. (same k ∙ lookup-assign k "env" (json.raw_map envs) es),
        mapped,
        λ k. (alike k ∙ lookup-assign k "ANTHROPIC_BASE_URL" (json.raw_text url) vars),
      )
