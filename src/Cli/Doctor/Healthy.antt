-- ===== src/Cli/Doctor/Healthy.antt =====
-- When the doctor is content.
use Prim.Native.String.{◌++◌ as ◌++ₛ◌}
use blind_llm_eyes.Base.{
  String, ◌≡◌, refl, sym, subst, ◌↔◌, Bool, true, false, ◌||◌, Option, none, some, List, arith, All,
  ◌≢◌, ◌⊎◌, inl, inr, not, eq_iff, str_eq, if◌then◌else◌, Bool-cases, ℤ, some_eq,
}
use blind_llm_eyes.Base.Results.{Result, ok, err}
use blind_llm_eyes.Cache.Sqlite.{Row}
use blind_llm_eyes.Config.Providers.{not_empty}
use blind_llm_eyes.Config.{Outside, LoadError, Config}
use blind_llm_eyes.Cli.Probes.{
  DoctorResult, Surroundings, run_doctor_check_db_writable, doctor_provider_list, failing, worst_of,
  run_doctor_check_vision_model_exists, doctor_pass, doctor_warn, doctor_fail,
}
use blind_llm_eyes.Config.Whole.{load}
use blind_llm_eyes.Base.Floats.{Floats}
use blind_llm_eyes.Vision.Clients.Build.{trim_slashes}
use blind_llm_eyes.Proxy.Hosts.{Net}
use blind_llm_eyes.Cli.Doctor.{
  doctor_of, run_doctor, visions_fail, run_doctor_core, run_doctor_check_upstream_reachable,
  visions_fail_of, exit_code, upstream_fails,
}
use blind_llm_eyes.Cli.Probes.Sound.{or-eq-false, and-false, IsListed, worst_iff, IsWritable}
use blind_llm_eyes.Cli.Doctor.Checked.{
  IsUpstreamFine, AreVisionsFine, upstream_iff, visions_iff, db_iff,
}

module _ {Float : Type 0} (c : Config Float) where
  module _ (s : Surroundings) (net : Net) (atoi : String → Option ℤ) where
    abbrev models_url : String
    models_url = trim_slashes c.upstream.base_url ++ₛ "/v1/models"

    abbrev pub IsReachable : Type 0
    IsReachable =
        (c.upstream.base_url ≡ "")
        ⊎ ((s.web_later.valid_url models_url ≡ true)
            × (s.head models_url c.upstream.api_key ≡ true))

    exit_iff :
        (failed : Bool) (r : Option DoctorResult)
        → (exit_code s net atoi failed r ≡ some 0)
          ↔ ((failed ≡ false) × (q : DoctorResult) × (r ≡ some q) × (failing q ≡ false))
    exit_iff true none = ((λ h. cc), (λ w. cc))
    exit_iff false none = ((λ h. cc), (λ w. cc))
    exit_iff true (some q) = ((λ h. absurd (ground (arith, h))), (λ w. cc))
    exit_iff false (some doctor_pass) = ((λ h. (refl, doctor_pass, refl, refl)), (λ w. refl))
    exit_iff false (some doctor_warn) = ((λ h. (refl, doctor_warn, refl, refl)), (λ w. refl))
    exit_iff false (some doctor_fail) = (
      (λ h. absurd (ground (arith, h))),
      (λ w. let f = subst (λ q. failing q ≡ false) (sym (some_eq w.2)) w.3 in cc),
    )

    reachable_iff :
        (model : String)
        → IsUpstreamFine c s net atoi model
        → ((q : DoctorResult) × (run_doctor_check_upstream_reachable s net atoi c ≡ some q)
            × (failing q ≡ false))
          ↔ IsReachable
    unfolding run_doctor_check_upstream_reachable
    reachable_iff model u = elim (Bool-cases (str_eq c.upstream.base_url "")) [
      | inl e ↦ rw e (
        (λ h. inl (ground (arith, eq_iff c.upstream.base_url ""))),
        (λ w. (doctor_pass, refl, refl)),
      )
      | inr e ↦ elim u [
        | inl empty ↦ absurd (not_empty c.upstream.base_url "" e empty)
        | inr fine ↦
            rw (e, fine.0, and-false (not (str_eq c.listen "")))
              (probed (not_empty c.upstream.base_url "" e) (s.web_later.valid_url models_url)
                (s.head models_url c.upstream.api_key))
      ]
    ]
      where
        probed :
            c.upstream.base_url ≢ ""
            → (valid answers : Bool)
            → ((q : DoctorResult) × ((if not valid
                    then none
                    else if answers
                    then some doctor_pass
                    else some doctor_fail)
                  ≡ some q)
                × (failing q ≡ false))
              ↔ ((c.upstream.base_url ≡ "") ⊎ ((valid ≡ true) × (answers ≡ true)))
        probed n true true = ((λ w. inr (refl, refl)), (λ r. (doctor_pass, refl, refl)))
        probed n true false = (
          (λ w. let f = subst (λ q. failing q ≡ false) (sym (some_eq w.1)) w.2 in cc),
          (λ r. elim r [ inl u ↦ absurd (n u) | inr v ↦ cc ]),
        )
        probed n false answers = ((λ w. cc), (λ r. elim r [ inl u ↦ absurd (n u) | inr v ↦ cc ]))

    -- The upstream and the vision models are not the proxy, and accept a text; with deep, the models
    -- describe an image; the database, if there is one, can be written; the models still accept a text
    -- later, and the upstream can be reached.
    abbrev pub IsHealthy : String → Bool → List Row → Type 0
    IsHealthy model deep rows =
        IsUpstreamFine c s net atoi model
        × AreVisionsFine c s net atoi deep c.vision_providers
        × ((c.cache.kind ≢ "twotier") ⊎ IsWritable s.db c rows)
        × All (IsListed s) (doctor_provider_list c)
        × IsReachable

    run_doctor_core_iff :
        (model : String) (deep : Bool) (rows : List Row)
        → (run_doctor_core s net atoi c model deep rows ≡ some 0) ↔ IsHealthy model deep rows
    unfolding run_doctor_core visions_fail run_doctor_check_vision_model_exists
    run_doctor_core_iff model deep rows =
        let u = upstream_fails s net atoi c model in
        let v = visions_fail_of s net atoi deep c.listen c.vision c.vision_providers in
        let d = failing (run_doctor_check_db_writable s.db c rows).0 in
        let m = failing (worst_of s doctor_pass (doctor_provider_list c)) in
        let (out, back) =
          exit_iff (u || (v || (d || m))) (run_doctor_check_upstream_reachable s net atoi c) in
        (
          (λ h.
              let (failed, q, reached, passed) = out h in
              let (hu, rest) = (or-eq-false u (v || (d || m))).0 failed in
              let (hv, more) = (or-eq-false v (d || m)).0 rest in
              let (hd, hm) = (or-eq-false d m).0 more in
              let fine = (upstream_iff c s net atoi model).0 hu in
              (
                fine,
                (visions_iff c s net atoi deep c.vision_providers).0 hv,
                (db_iff c s.db rows).0 hd,
                ((worst_iff s doctor_pass (doctor_provider_list c)).0 hm).1,
                (reachable_iff model fine).0 (q, reached, passed),
              )),
          (λ w.
              let (q, reached, passed) = (reachable_iff model w.0).1 w.4 in
              back (
                (or-eq-false u (v || (d || m))).1 (
                  (upstream_iff c s net atoi model).1 w.0,
                  (or-eq-false v (d || m)).1 (
                    (visions_iff c s net atoi deep c.vision_providers).1 w.1,
                    (or-eq-false d m).1 (
                      (db_iff c s.db rows).1 w.2,
                      (worst_iff s doctor_pass (doctor_provider_list c)).1 (refl, w.3),
                    ),
                  ),
                ),
                q,
                reached,
                passed,
              )),
        )

module _ (floats : Floats) (s : Surroundings) (net : Net) (atoi : String → Option ℤ)
    (out : Outside (floats.Float)) where
  loaded_iff :
      (model : String) (deep : Bool) (rows : List Row)
      (r : Result LoadError (Config (floats.Float)))
      → (doctor_of s net atoi model deep rows r ≡ some 0)
        ↔ ((c : Config (floats.Float)) × (r ≡ ok c) × IsHealthy c s net atoi model deep rows)
  loaded_iff model deep rows (err e) = ((λ h. absurd (ground (arith, h))), (λ w. cc))
  loaded_iff model deep rows (ok c) = (
    (λ h. (c, refl, (run_doctor_core_iff c s net atoi model deep rows).0 h)),
    (λ w.
        subst (λ r. doctor_of s net atoi model deep rows r ≡ some 0) (sym w.1)
          ((run_doctor_core_iff w.0 s net atoi model deep rows).1 w.2)),
  )

  -- The doctor exits with 0 exactly if the settings can be loaded; neither the upstream nor a
  -- vision service that they name is the proxy, by the test of the doctor itself; each of them,
  -- and the vision services once more later, accepts a request, which is to answer it with any
  -- status but 401 and 403; with deep, each vision service describes the test image; with the two-
  -- tier cache, its database opens, which may erase a corrupt one, and is then sound and takes a
  -- row; and the upstream answers a HEAD. A model that is missing from the list of a service, or a
  -- list that cannot be had, does not count.
  pub run_doctor_iff :
      (path model : String) (deep : Bool) (rows : List Row)
      → (run_doctor floats s net atoi out (some (path, model, deep)) rows ≡ some 0) ↔ (
          (c : Config (floats.Float)) × (load floats out path ≡ ok c)
          × IsHealthy c s net atoi model deep rows)
  unfolding run_doctor
  run_doctor_iff path model deep rows = loaded_iff model deep rows (load floats out path)
