-- ===== src/Server/Start/Sound.antt =====
-- What runServer has when it serves: no loop, a cache that holds entries, a valid controller.
use blind_llm_eyes.Base.{
  branches, List, [], str_eq, ℤ, pos, negsuc, ◌≤ℤ◌, ℕ, ◌<◌, ◌≡◌, refl, subst, sym, ◌∙◌, ap, String,
  false, ◌≢◌, arith, eq_iff,
}
use blind_llm_eyes.Base.Floats.{Floats}
use blind_llm_eyes.Base.Results.{Result, ok, err, >>=-eq-ok, reject->>-eq-ok, ok_eq}
use blind_llm_eyes.Proxy.Adaptive.Invariant.{IsValid, new_controller-IsValid}
use blind_llm_eyes.Messages.Validate.{trim_space}
use blind_llm_eyes.Proxy.Hosts.{Net}
use blind_llm_eyes.Proxy.Hosts.Loops.{IsOwn, self_referential_iff}
use blind_llm_eyes.Proxy.Handler.{Deps, loops, vision_loops}
use blind_llm_eyes.Proxy.NewHandler.{not_negative, new_handler}
use blind_llm_eyes.Config.{Config, CacheCfg, Outside}
use blind_llm_eyes.Config.Providers.{default_int_pos}
use blind_llm_eyes.Config.Ready.{load-IsReady}
use blind_llm_eyes.Config.Whole.{load}
use blind_llm_eyes.Vision.Clients.Build.{Network}
use blind_llm_eyes.Cache.Lru.{new_lru}
use blind_llm_eyes.Cache.Sqlite.{Sqlite, Row}
use blind_llm_eyes.Cache.Sqlite.Counts.{AreDistinct, IsCounted}
use blind_llm_eyes.Cache.Sqlite.Counted.{run_calls}
use blind_llm_eyes.Cache.Sqlite.Open.{Opening, OpenError, open_sqlite, milliseconds}
use blind_llm_eyes.Cache.Sqlite.Open.Recovered.{KeptOrGone, open_sqlite-IsCounted}
use blind_llm_eyes.Server.Start.{
  panic, bad_config, CacheBackend, lru, two_tier, Running, lift_error, capacity, backend,
  build_cache, adaptive_settings, build_deps, run_server,
}

-- What holds of the parts of a handler that NewHandler returns.
pub record IsServing (net : Net) (d : Deps) : Type 0 where
  pub has_upstream : d.upstream_base_url ≢ ""
  pub no_loop : loops net d.upstream_base_url d ≡ false
  pub no_vision_loop : vision_loops net d ≡ false
  pub rounds : pos 0 ≤ℤ d.context_rounds
  pub chars : pos 1 ≤ℤ d.context_max_chars

not_negative_lem : (n : ℤ) → pos 0 ≤ℤ not_negative n
not_negative_lem (pos n) = ground arith
not_negative_lem (negsuc n) = ground arith

lift_error_ok :
    {E F A : Type 0} (f : E → F) (r : Result E A) {a : A} → lift_error f r ≡ ok a → r ≡ ok a
lift_error_ok f (ok a) h = ap ok (ok_eq h)
lift_error_ok f (err e) h = cc

-- NewHandler returns a handler only if the upstream is given and neither the upstream nor the vision
-- API is the proxy itself.
pub new_handler-IsServing :
    (net : Net) (deps d : Deps)
    → new_handler net deps ≡ ok d
    → IsServing net d × (d.listen_addr ≡ deps.listen_addr) × (d.fail_open ≡ deps.fail_open)
unfolding new_handler loops vision_loops
new_handler-IsServing net deps d h =
    let (some_url, h1) = reject->>-eq-ok _ h in
    let (apart, h2) = reject->>-eq-ok _ h1 in
    let (vision_apart, h3) = reject->>-eq-ok _ h2 in
    subst
      (λ d. IsServing net d × (d.listen_addr ≡ deps.listen_addr) × (d.fail_open ≡ deps.fail_open))
      (ok_eq h3)
      (
        record {
          has_upstream = λ e. ground (arith, eq_iff deps.upstream_base_url "");
          no_loop = apart;
          no_vision_loop = vision_apart;
          rounds = not_negative_lem deps.context_rounds;
          chars = default_int_pos 2000 deps.context_max_chars (omega arith);
        },
        refl,
        refl,
      )

trim_space_empty : trim_space "" ≡ ""
unfolding trim_space
trim_space_empty = refl

-- What NewHandler returns, listening somewhere, has an upstream that does not lead to that place.
serving-elsewhere :
    (net : Net) (d : Deps)
    → d.listen_addr ≢ ""
    → IsServing net d
    → ¬ IsOwn net d.upstream_base_url d.listen_addr
unfolding loops
serving-elsewhere net d listens s own =
    let listening : str_eq d.listen_addr "" ≡ false =
      ground (arith, listens, eq_iff d.listen_addr "") in
    let given : str_eq d.upstream_base_url "" ≡ false =
      ground (arith, s.has_upstream, eq_iff d.upstream_base_url "") in
    ground (
      arith,
      listening,
      s.no_loop,
      (self_referential_iff net d.upstream_base_url d.listen_addr given listening).1 own,
    )

-- The most entries of the layer in memory.
abbrev pub room : CacheBackend → ℕ
room (lru l) = l.cap
room (two_tier t) = t.hot.cap

capacity_pos : (n : ℤ) → pos 1 ≤ℤ n → 0 < capacity n
capacity_pos (pos n) h = ground arith
capacity_pos (negsuc n) h = ground arith

backend-room : (n : ℕ) (opened : Result OpenError Sqlite) → room (backend n opened) ≡ n
unfolding new_lru
backend-room n (ok cold) = refl
backend-room n (err e) = refl

build_cache-room :
    (o : Opening) (c : CacheCfg) (rows : List Row)
    → room (build_cache o c rows) ≡ capacity c.max_entries
unfolding build_cache new_lru
build_cache-room o c rows =
    branches (λ b. room b ≡ capacity c.max_entries) (str_eq c.kind "twotier") _ _
      (backend-room (capacity c.max_entries) _) refl

-- The database behind the cache, if there is one, has all rows of the file or none, and counts them.
abbrev pub IsSound : List Row → CacheBackend → Type 0
IsSound rows (lru l) = Unit
IsSound rows (two_tier t) = KeptOrGone rows t.cold.rows × IsCounted t.cold

backend-IsSound :
    (n : ℕ) (o : Opening) (path : String) (max_entries ttl : ℕ) (rows : List Row)
    → AreDistinct rows
    → (opened : Result OpenError Sqlite) → open_sqlite o path max_entries ttl rows ≡ opened
    → IsSound rows (backend n opened)
unfolding run_calls
backend-IsSound n o path max_entries ttl rows d (ok s) h =
    open_sqlite-IsCounted o path max_entries ttl rows s [] h d
backend-IsSound n o path max_entries ttl rows d (err e) h = tt

build_cache-IsSound :
    (o : Opening) (c : CacheCfg) (rows : List Row)
    → AreDistinct rows
    → IsSound rows (build_cache o c rows)
unfolding build_cache
build_cache-IsSound o c rows d =
    branches (IsSound rows) (str_eq c.kind "twotier") _ _
      (backend-IsSound (capacity c.max_entries) o c.db_path (capacity c.sqlite_max_entries)
        (milliseconds c.sqlite_ttl) rows d _ refl)
      tt

module _ (floats : Floats) where
  open floats use {Float, is_nan}

  pub record IsSafe (net : Net) (c : Config Float) (rows : List Row) (r : Running floats)
      : Type 0 where
    pub serving : IsServing net r.deps
    pub elsewhere : ¬ IsOwn net r.deps.upstream_base_url r.deps.listen_addr
    pub address : r.deps.listen_addr ≡ c.listen
    pub open_or_not : r.deps.fail_open ≡ c.fail_open
    pub has_room : 0 < room r.cache
    pub sound : IsSound rows r.cache
    pub controlled : IsValid floats r.controller

  -- If Load succeeds with a ratio that is a number, the file of the database holds no hash twice,
  -- and runServer comes to serve: it serves at the listen address and with the fail_open of the
  -- settings, the upstream is given, and does not have the port that the proxy listens on, as a
  -- text, together with a host of the same normal form, the guard of the handler does not take a
  -- single vision API for the proxy itself, the memory layer of the cache has room for an entry,
  -- the database behind it, if there is one, has all rows of the file or none and counts them, and
  -- the controller of the concurrency is valid.
  pub run_server-IsSafe :
      (net : Net) (network : Network) (out : Outside Float) (opening : Opening) (rows : List Row)
      (path : String) (c : Config Float) (r : Running floats)
      → load floats out path ≡ ok c
      → is_nan c.adaptive_concurrency.decrease_ratio ≡ false
      → AreDistinct rows
      → run_server floats net network out opening rows path ≡ ok r
      → IsSafe net c rows r
  unfolding run_server build_deps adaptive_settings
  run_server-IsSafe net network out opening rows path c r loaded number distinct h =
      let (d, given, h1) = >>=-eq-ok h in
      let e = ok_eq (sym (lift_error_ok bad_config _ given) ∙ loaded) in
      let (provider, chosen, h2) = >>=-eq-ok h1 in
      let (deps, made, h3) = >>=-eq-ok h2 in
      let (serving, address, open_or_not) =
        new_handler-IsServing net _ deps (lift_error_ok panic _ made) in
      let ready = load-IsReady floats out path c loaded in
      let entries = ready.5 in
      let same = address ∙ ap (λ d. d.listen) e in
      subst (IsSafe net c rows) (ok_eq h3) (record {
        serving = serving;
        elsewhere =
            serving-elsewhere net deps
              (λ q. ready.0 (ap trim_space (sym same ∙ q) ∙ trim_space_empty)) serving;
        address = same;
        open_or_not = open_or_not ∙ ap (λ d. d.fail_open) e;
        has_room =
            subst (λ n. 0 < n)
              (sym (build_cache-room opening _ rows ∙ ap (λ d. capacity d.cache.max_entries) e))
              (capacity_pos c.cache.max_entries entries);
        sound = build_cache-IsSound opening _ rows distinct;
        controlled =
            new_controller-IsValid floats _
              (ap (λ d. is_nan d.adaptive_concurrency.decrease_ratio) e ∙ number);
      })
