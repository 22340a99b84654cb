-- ===== src/Server.antt =====
-- main.go, admin/admin.go: the routes of the server, its handlers for administration, and the events of
-- its loop. A path is one that net/http has cleaned.
pub mod Guards
pub mod Tokens
pub mod Start
use text.Mathlib.Text.{starts_with}
use blind_llm_eyes.Base.{
  ℕ, String, str_eq, Bool, true, false, not, ◌&&◌, ◌||◌, if◌then◌else◌, Option, none, some, List,
  [], ◌∷◌,
}
use blind_llm_eyes.Base.Results.{Result, ok, err}
use blind_llm_eyes.Base.Floats.{Floats}
use blind_llm_eyes.Config.{Outside}
use blind_llm_eyes.Config.Reload.{ReloadableConfig, Reloaded, reload}
use blind_llm_eyes.Proxy.Hosts.{Net}
use blind_llm_eyes.Server.Guards.{HttpReq, PprofCfg, Guard, passed, wrap, with_metrics_auth}

pub data Endpoint : Type 0 where
  messages metrics healthz pprof_index pprof_cmdline pprof_profile pprof_symbol pprof_trace :
      Endpoint

pub data Route : Type 0 where
  to_messages to_metrics to_healthz to_shutdown to_reload to_pprof_root no_route : Route
  to_pprof : Endpoint → Route

-- The patterns of the ServeMux: one that ends with a slash is for all paths below it, a longer one is
-- preferred, and the path without the slash is redirected to it.
unfoldable pub route : String → Route
route path =
    if str_eq path "/v1/messages"
    then to_messages
    else if str_eq path "/metrics"
    then to_metrics
    else if str_eq path "/healthz"
    then to_healthz
    else if str_eq path "/admin/shutdown"
    then to_shutdown
    else if str_eq path "/admin/reload"
    then to_reload
    else if str_eq path "/debug/pprof/cmdline"
    then to_pprof pprof_cmdline
    else if str_eq path "/debug/pprof/profile"
    then to_pprof pprof_profile
    else if str_eq path "/debug/pprof/symbol"
    then to_pprof pprof_symbol
    else if str_eq path "/debug/pprof/trace"
    then to_pprof pprof_trace
    else if starts_with path "/debug/pprof/"
    then to_pprof pprof_index
    else if str_eq path "/debug/pprof"
    then to_pprof_root
    else no_route

pub data Response : Type 0 where
  served : Endpoint → Response
  guarded : Guard → Response
  redirected not_found method_not_allowed forbidden accepted reloaded reload_failed : Response

-- What the running process keeps: the settings, the token made at its start, the token of the metrics
-- and the switch for pprof as they were at its start, and whether the channel of the shutdown is closed.
pub record Server (Float : Type 0) : Type 0 where
  pub config : ReloadableConfig Float
  pub admin_token : String
  pub metrics_token : String
  pub pprof : PprofCfg
  pub shutdown : Bool

-- ShutdownHandler.ServeHTTP; once.Do closes the channel at the first call only.
unfoldable pub serve_shutdown : {Float : Type 0} → HttpReq → Server Float → Response × Server Float
serve_shutdown r s =
    if not (str_eq r.method "POST")
    then (method_not_allowed, s)
    else if not (str_eq r.admin_token s.admin_token)
    then (forbidden, s)
    else (accepted, record s { shutdown = true })

abbrev reload_answer : {Float : Type 0} → Server Float → Reloaded Float → Response × Server Float
reload_answer s d = elim d.outcome [
  | ok u ↦ (reloaded, record s { config = d.after })
  | err e ↦ (reload_failed, record s { config = d.after })
]

abbrev guard_metrics : {Float : Type 0} → HttpReq → Server Float → Response
guard_metrics r s =
    if str_eq s.metrics_token ""
    then served metrics
    else elim (with_metrics_auth s.metrics_token r) [ passed ↦ served metrics | g ↦ guarded g ]

module _ (floats : Floats) (net : Net) where
  open floats use {Float}

  -- ReloadHandler.ServeHTTP
  unfoldable pub serve_reload : Outside Float → HttpReq → Server Float → Response × Server Float
  serve_reload out r s =
      if not (str_eq r.method "POST")
      then (method_not_allowed, s)
      else if not (str_eq r.admin_token s.admin_token)
      then (forbidden, s)
      else reload_answer s (reload floats out s.config)

  abbrev guard_pprof : Endpoint → HttpReq → Server Float → Response
  guard_pprof e r s = elim (wrap net s.pprof r) [ passed ↦ served e | g ↦ guarded g ]

  abbrev handle : Outside Float → HttpReq → Server Float → Route → Response × Server Float
  handle out r s to_messages = (served messages, s)
  handle out r s to_metrics = (guard_metrics r s, s)
  handle out r s to_healthz = (served healthz, s)
  handle out r s to_shutdown = serve_shutdown r s
  handle out r s to_reload = serve_reload out r s
  handle out r s to_pprof_root = (redirected, s)
  handle out r s (to_pprof e) = (guard_pprof e r s, s)
  handle out r s no_route = (not_found, s)

  unfoldable pub serve_http : Outside Float → HttpReq → Server Float → Response × Server Float
  serve_http out r s = handle out r s (route r.path)

  -- What the loop of runServer waits for, with the requests that come meanwhile. Each reload finds the
  -- file and the environment of its time.
  pub data Event : Type 1 where
    request : Outside Float → HttpReq → Event
    hangup : Outside Float → Event
    interrupt listen_failed : Event

  pub data Ended : Type 0 where
    serving stopped_by_signal stopped_by_admin failed : Ended

  unfoldable pub run_loop : List Event → Server Float → Ended × Server Float
  run_loop [] s = (serving, s)
  run_loop (interrupt ∷ es) s = (stopped_by_signal, s)
  run_loop (listen_failed ∷ es) s = (failed, s)
  run_loop (hangup out ∷ es) s =
      run_loop es (record s { config = (reload floats out s.config).after })
  run_loop (request out r ∷ es) s =
      let after = (serve_http out r s).1 in
      let rest = run_loop es after in if after.shutdown then (stopped_by_admin, after) else rest
