-- ===== src/Cli/Probes/Sound.antt =====
-- When the checks of the database and of the models pass.
use blind_llm_eyes.Base.{
  String, ◌≡◌, refl, sym, subst, ◌↔◌, Bool, true, false, ◌||◌, Option, none, some, List, [], ◌∷◌,
  arith, All, ap, ◌∙◌, not, ◌&&◌, eq_iff, str_eq,
}
use blind_llm_eyes.Base.Results.{reject, ◌>>◌, ◌>>=◌, Result, ok, err, ok_eq}
use blind_llm_eyes.Cache.Sqlite.{Row, Sqlite}
use blind_llm_eyes.Cache.Sqlite.Open.{milliseconds, OpenError, open_sqlite}
use blind_llm_eyes.Config.{ProviderCfg, Config}
use blind_llm_eyes.Cache.Sqlite.{open_count, select, insert}
use blind_llm_eyes.Cache.Sqlite.Open.{
  open_failure, or_default, is_ok, apply_corruption_recovery, rebuild_db,
}
use blind_llm_eyes.Cache.Sqlite.Open.Recovered.{CanRebuild}
use blind_llm_eyes.Cli.Probes.{
  probe_result, delete_hash, probe_row, write_probe, run_doctor_check_db_writable, DoctorResult,
  DbProbe, Surroundings, is_err, or_ten_thousand, opened_result, worse, failing, listed,
  behind_ping, behind_build, check_model, worst_of, doctor_pass, doctor_warn, doctor_fail,
}
use blind_llm_eyes.Vision.Clients.{Web, HttpRequest}
use blind_llm_eyes.Vision.Clients.Build.{Provider, BuildError, build_provider}
use blind_llm_eyes.Vision.Clients.Ping.{PingError, ping, probe, probe_iff, Accepts, ping_request}

pub or-eq-false : (a b : Bool) → (a || b ≡ false) ↔ ((a ≡ false) × (b ≡ false))
or-eq-false true b = ((λ h. cc), (λ h. cc))
or-eq-false false b = ((λ h. (refl, h)), (λ h. h.1))

pub and-false : (a : Bool) → a && false ≡ false
and-false true = refl
and-false false = refl

pub no_err : (r : Result PingError (Unit {0})) → (is_err r ≡ false) ↔ (r ≡ ok tt)
no_err (ok u) = ((λ h. refl), (λ h. refl))
no_err (err e) = ((λ h. cc), (λ h. cc))

pub iff_trans : {A B C : Type 0} → A ↔ B → B ↔ C → A ↔ C
iff_trans f g = ((λ a. g.0 (f.0 a)), (λ c. f.1 (g.1 c)))

-- The service accepts a request: it is sent, and is not answered with 401 or 403.
abbrev pub Answered : Web → HttpRequest → Type 0
Answered web r = (web.valid_url r.url ≡ true) × Accepts web (web.send r)

pub probe-Answered : (web : Web) (r : HttpRequest) → (is_err (probe web r) ≡ false) ↔ Answered web r
probe-Answered web r = iff_trans (no_err (probe web r)) (probe_iff web r)

module _ (s : Surroundings) where
  -- A provider that is built and is accepted later; its list of models does not count.
  abbrev pub IsListed : ProviderCfg → Type 0
  IsListed p =
      (b : Provider) × (build_provider p ≡ ok b) × Answered s.web_later (ping_request 5000000000 b)

  warned : (p : ProviderCfg) (o : Option (List String)) → failing (listed s p o) ≡ false
  warned p none = refl
  warned p (some ids) = ground arith

  ping_listed_iff :
      (p : ProviderCfg) (r : Result PingError (Unit {0}))
      → (failing (behind_ping s p r) ≡ false) ↔ (is_err r ≡ false)
  ping_listed_iff p (ok u) = ((λ h. refl), (λ h. warned p _))
  ping_listed_iff p (err e) = ((λ h. h), (λ h. h))

  build_listed_iff :
      (p : ProviderCfg) (r : Result BuildError Provider)
      → (failing (behind_build s p r) ≡ false)
        ↔ ((b : Provider) × (r ≡ ok b) × Answered s.web_later (ping_request 5000000000 b))
  unfolding ping
  build_listed_iff p (err e) = ((λ h. cc), (λ l. cc))
  build_listed_iff p (ok b) =
      let (to, from) =
        iff_trans (ping_listed_iff p (ping s.web_later 5000000000 b))
          (probe-Answered s.web_later (ping_request 5000000000 b)) in
      (
        (λ f. (b, refl, to f)),
        (λ l.
            from (
              subst (λ c. Answered s.web_later (ping_request 5000000000 c)) (sym (ok_eq l.1)) l.2)),
      )

  worse-eq-false :
      (a b : DoctorResult)
      → (failing (worse a b) ≡ false) ↔ ((failing a ≡ false) × (failing b ≡ false))
  worse-eq-false doctor_fail b = ((λ h. cc), (λ h. cc))
  worse-eq-false doctor_pass doctor_pass = ((λ h. (refl, refl)), (λ h. refl))
  worse-eq-false doctor_pass doctor_warn = ((λ h. (refl, refl)), (λ h. refl))
  worse-eq-false doctor_pass doctor_fail = ((λ h. cc), (λ h. cc))
  worse-eq-false doctor_warn doctor_pass = ((λ h. (refl, refl)), (λ h. refl))
  worse-eq-false doctor_warn doctor_warn = ((λ h. (refl, refl)), (λ h. refl))
  worse-eq-false doctor_warn doctor_fail = ((λ h. cc), (λ h. cc))

  pub worst_iff :
      (w : DoctorResult) (ps : List ProviderCfg)
      → (failing (worst_of s w ps) ≡ false) ↔ ((failing w ≡ false) × All IsListed ps)
  unfolding worst_of check_model
  worst_iff w [] = ((λ h. (h, tt)), (λ h. h.0))
  worst_iff w (p ∷ ps) =
      let (to, from) = worst_iff (worse w (check_model s p)) ps in
      let (one, all) = worse-eq-false w (check_model s p) in
      let (good, bad) = build_listed_iff p (build_provider p) in
      (
        (λ h. let (now, rest) = to h in let (past, here) = one now in (past, (good here, rest))),
        (λ h. from (all (h.0, bad h.1.0), h.1.1)),
      )

-- The file can be opened, is sound, and takes a row.
abbrev pub IsWritable : {Float : Type 0} → DbProbe → Config Float → List Row → Type 0
IsWritable d c rows =
    (q : Sqlite) × (open_sqlite d.opening c.cache.db_path
        (or_ten_thousand c.cache.sqlite_max_entries) (milliseconds c.cache.sqlite_ttl) rows
      ≡ ok q)
    × (d.quick_check ≡ some "ok")
    × (d.insert_fails ≡ false)
    × (d.delete_fails ≡ false)

pub db_iff_opened :
    (d : DbProbe) (rows : List Row) (r : Result OpenError Sqlite)
    → (failing (opened_result d rows r).0 ≡ false) ↔ (
        (q : Sqlite) × (r ≡ ok q)
        × (d.quick_check ≡ some "ok")
        × (d.insert_fails ≡ false)
        × (d.delete_fails ≡ false))
unfolding write_probe
db_iff_opened d rows (err e) = ((λ h. cc), (λ w. cc))
db_iff_opened d rows (ok q) = (to d.quick_check refl, λ w. rw (w.2, w.3, w.4) refl)
  where
    to :
        (o : Option String)
        → d.quick_check ≡ o
        → failing (opened_result d rows (ok q)).0 ≡ false
        → ((x : Sqlite) × (◌≡◌ {A = Result OpenError Sqlite} (ok q) (ok x))
            × (d.quick_check ≡ some "ok")
            × (d.insert_fails ≡ false)
            × (d.delete_fails ≡ false))
    to none e h = absurd (ground (arith, h))
    to (some t) e h =
        (q, refl, e ∙ ap some (ground (arith, eq_iff t "ok")), ground arith, ground arith)

pub not_two_tier : (k : String) → not (str_eq k "twotier") ≡ false → k ≡ "twotier"
not_two_tier k h = ground (arith, eq_iff k "twotier")

delete-insert :
    (d : DbProbe) (rows : List Row)
    → select d.hash rows ≡ none
    → delete_hash d.hash (insert (probe_row d) rows) ≡ rows
unfolding delete_hash insert select
delete-insert d [] h = ground (arith, eq_iff d.hash d.hash)
delete-insert d (r ∷ rs) h = ground (arith, delete-insert d rs)

-- A probe that succeeds leaves no trace, if no row had its hash.
pub write_probe_clean :
    (d : DbProbe) (rows : List Row)
    → select d.hash rows ≡ none
    → d.insert_fails ≡ false
    → d.delete_fails ≡ false
    → write_probe d rows ≡ (true, rows)
unfolding write_probe
write_probe_clean d rows fresh inserts deletes =
    rw (inserts, deletes, fresh) (ap (λ rs. (true, rs)) (delete-insert d rows fresh))

select-nil : (h : String) → select h [] ≡ none
unfolding select
select-nil h = refl

-- If the file is sound but for its integrity, and can be rebuilt, then the check of the database, which
-- is there to find corruption, passes, and every row is gone.
pub corrupt_db_passes :
    {Float : Type 0} (d : DbProbe) (c : Config Float) (rows : List Row)
    → c.cache.kind ≡ "twotier"
    → open_failure d.opening (or_default c.cache.db_path) ≡ ok tt
    → d.opening.pragma_fails ≡ false
    → is_ok d.opening.integrity_check ≡ false
    → CanRebuild d.opening.second_rebuild
    → d.opening.second_rebuild.remove_fails ≡ false
    → d.opening.create_fails ≡ false
    → d.opening.count_fails ≡ false
    → d.quick_check ≡ some "ok"
    → d.insert_fails ≡ false
    → d.delete_fails ≡ false
    → run_doctor_check_db_writable d c rows ≡ (doctor_pass, [])
unfolding run_doctor_check_db_writable open_sqlite apply_corruption_recovery rebuild_db open_count
    ◌>>=◌ ◌>>◌ reject
corrupt_db_passes d c rows kind opened pragmas corrupt again removed created counted sound inserts
      deletes =
    rw (kind, opened, pragmas, corrupt, again.0, again.1, removed, created, counted, sound)
      (ap probe_result (write_probe_clean _ [] (select-nil d.hash) inserts deletes))
