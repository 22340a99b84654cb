-- ===== src/Config/Kept.antt =====
-- What reloads keep of the settings.
use blind_llm_eyes.Base.{
  ap, subst, ◌≡◌, ◌⊎◌, inl, inr, refl, sym, ◌∙◌, String, eq_iff, false, List, [], ◌∷◌, arith,
}
use blind_llm_eyes.Base.Floats.{Floats}
use blind_llm_eyes.Base.Results.{Result, ok, err, ◌>>=◌, >>=-eq-ok, reject->>-eq-ok, ok_eq}
use blind_llm_eyes.Config.{Config, Outside, LoadError}
use blind_llm_eyes.Config.Whole.{load}
use blind_llm_eyes.Config.Ready.{IsReady, load-IsReady}
use blind_llm_eyes.Config.Reload.{
  ReloadableConfig, Reloaded, ReloadError, guard_fields, reload, run_reloads, swap, loaded, changed,
}

-- The fields that only a restart changes.
abbrev pub SameGuarded : {Float : Type 0} → Config Float → Config Float → Type 0
SameGuarded a b =
    (a.listen ≡ b.listen)
    × (a.upstream.base_url ≡ b.upstream.base_url)
    × (a.upstream.api_key ≡ b.upstream.api_key)
    × (a.metrics_auth_token ≡ b.metrics_auth_token)
    × (a.cache.db_path ≡ b.cache.db_path)

guarded_trans :
    {Float : Type 0} (a b c : Config Float) → SameGuarded a b → SameGuarded b c → SameGuarded a c
guarded_trans a b c e f = (e.0 ∙ f.0, e.1 ∙ f.1, e.2 ∙ f.2, e.3 ∙ f.3, e.4 ∙ f.4)

unchanged : (a b : String) → changed a b ≡ false → a ≡ b
unchanged a b h = ground (arith, eq_iff a b)

guard_fields-SameGuarded :
    {Float : Type 0} (prev next c : Config Float)
    → guard_fields prev next ≡ ok c
    → SameGuarded prev c × (next ≡ c)
unfolding guard_fields
guard_fields-SameGuarded prev next c h =
    let (e0, h0) = reject->>-eq-ok _ h in
    let (e1, h1) = reject->>-eq-ok _ h0 in
    let (e2, h2) = reject->>-eq-ok _ h1 in
    let (e3, h3) = reject->>-eq-ok _ h2 in
    let (e4, h4) = reject->>-eq-ok _ h3 in
    subst (λ d. SameGuarded prev d × (next ≡ d)) (ok_eq h4)
      (
        (
          unchanged prev.listen next.listen e0,
          unchanged prev.upstream.base_url next.upstream.base_url e1,
          unchanged prev.upstream.api_key next.upstream.api_key e2,
          unchanged prev.metrics_auth_token next.metrics_auth_token e3,
          unchanged prev.cache.db_path next.cache.db_path e4,
        ),
        refl,
      )

loaded_ok :
    {Float : Type 0} (r : Result LoadError (Config Float)) {c : Config Float}
    → loaded r ≡ ok c
    → r ≡ ok c
loaded_ok (ok d) h = ap ok (ok_eq h)
loaded_ok (err e) h = cc

module _ (floats : Floats) where
  open floats use {Float}

  -- Either the settings are read, checked and taken whole, or all stays as it was.
  abbrev pub AllOrNothing : Outside Float → ReloadableConfig Float → Reloaded Float → Type 0
  AllOrNothing out r d =
      ((d.outcome ≡ ok tt)
        × (load floats out r.path ≡ ok d.next)
        × (d.after.current ≡ d.next)
        × (d.after.path ≡ r.path)
        × SameGuarded r.current d.next
        × IsReady floats d.next)
      ⊎ ((e : ReloadError) × (d.outcome ≡ err e) × (d.after ≡ r) × (d.next ≡ r.current))

  swap-AllOrNothing :
      (out : Outside Float) (r : ReloadableConfig Float) (m : Result ReloadError (Config Float))
      → loaded (load floats out r.path) >>= guard_fields r.current ≡ m
      → AllOrNothing out r (swap r m)
  swap-AllOrNothing out r (ok c) h =
      let (next, l, g) = >>=-eq-ok h in
      let (same, e) = guard_fields-SameGuarded r.current next c g in
      let given = loaded_ok (load floats out r.path) l ∙ ap ok e in
      inl (refl, given, refl, refl, same, load-IsReady floats out r.path c given)
  swap-AllOrNothing out r (err e) h = inr (e, refl, refl, refl)

  swap-prev :
      (r : ReloadableConfig Float) (m : Result ReloadError (Config Float))
      → (swap r m).prev ≡ r.current
  swap-prev r (ok c) = refl
  swap-prev r (err e) = refl

  -- A reload is all or nothing: if it answers without an error, the settings in force are those that
  -- Load makes of the file, they are fit to be used, and the fields that need a restart are as before;
  -- if it answers with an error, the settings in force and the path are as before.
  pub reload-AllOrNothing :
      (out : Outside Float) (r : ReloadableConfig Float)
      → AllOrNothing out r (reload floats out r) × ((reload floats out r).prev ≡ r.current)
  unfolding reload
  reload-AllOrNothing out r = (swap-AllOrNothing out r _ refl, swap-prev r _)

  kept :
      (out : Outside Float) (r : ReloadableConfig Float)
      → IsReady floats r.current
      → ((reload floats out r).after.path ≡ r.path)
        × SameGuarded r.current (reload floats out r).after.current
        × IsReady floats (reload floats out r).after.current
  kept out r h = elim (reload-AllOrNothing out r).0 [
    | inl (done, read, next, path, same, ready) ↦ (
      path,
      subst (SameGuarded r.current) (sym next) same,
      subst (IsReady floats) (sym next) ready,
    )
    | inr (e, failed, after, next) ↦
        subst (λ a. (a.path ≡ r.path) × SameGuarded r.current a.current × IsReady floats a.current)
          (sym after) (refl, (refl, refl, refl, refl, refl), h)
  ]

  -- However often the settings are reloaded, and whatever the file and the environment hold then: the
  -- path and the fields that need a restart stay as they were at the start, and the settings stay fit
  -- to be used if they were so at the start.
  pub run_reloads-keep :
      (outs : List (Outside Float)) (r : ReloadableConfig Float)
      → IsReady floats r.current
      → ((run_reloads floats outs r).path ≡ r.path)
        × SameGuarded r.current (run_reloads floats outs r).current
        × IsReady floats (run_reloads floats outs r).current
  unfolding run_reloads
  run_reloads-keep [] r h = (refl, (refl, refl, refl, refl, refl), h)
  run_reloads-keep (out ∷ outs) r h =
      let (path, same, ready) = kept out r h in
      let (paths, sames, end) = run_reloads-keep outs (reload floats out r).after ready in
      (
        paths ∙ path,
        guarded_trans r.current (reload floats out r).after.current
            (run_reloads floats outs (reload floats out r).after).current same sames,
        end,
      )
