-- ===== src/Tests/Server.antt =====
-- The server at concrete requests.
use blind_llm_eyes.Base.{◌≡◌, ◌≢◌, ◌↔◌, ◌⊎◌, inr, refl, true, false, List, [], ◌∷◌}
use blind_llm_eyes.Config.Reload.{new_reloadable_config}
use blind_llm_eyes.Config.Providers.{not_empty}
use blind_llm_eyes.Server.{Server, Event, request, hangup, run_loop}
use blind_llm_eyes.Server.Guards.{
  provided_token, PprofCfg, HttpReq, passed, is_loopback_remote_addr, wrap,
}
use blind_llm_eyes.Server.Guards.Served.{wrap_iff}
use blind_llm_eyes.Server.Tokens.{Unmoved, run_loop_strangers}
use blind_llm_eyes.Tests.Fractions.{fractions, Fraction}
use blind_llm_eyes.Tests.Config.{ready, parsed, outside}
use blind_llm_eyes.Tests.Handler.{net}

abbrev server : Server Fraction
server = record {
  config = new_reloadable_config ready "config.yaml";
  admin_token = "c0ffee";
  metrics_token = "m";
  pprof = record { enabled = true; auth_token = "" };
  shutdown = false;
}

abbrev guess : HttpReq
guess = record {
  method = "POST";
  path = "/admin/shutdown";
  query_token = "";
  metrics_token = "";
  admin_token = "guess";
  remote_addr = "10.0.0.5:1234";
}

abbrev events : List (Event fractions net)
events = request (outside parsed) guess ∷ (hangup (outside parsed) ∷ [])

run_loop_strangers_example :
    Unmoved fractions net events server (run_loop fractions net events server)
run_loop_strangers_example =
    run_loop_strangers fractions net events server refl
      (inr (not_empty "guess" "c0ffee" refl), (tt, tt))

abbrev open_pprof : PprofCfg
open_pprof = record { enabled = true; auth_token = "" }

wrap_iff_example : (wrap net open_pprof guess ≡ passed) ↔ (
    (open_pprof.enabled ≡ true)
    × (((open_pprof.auth_token ≢ "") × (provided_token guess ≡ open_pprof.auth_token))
        ⊎ ((open_pprof.auth_token ≡ "") × (is_loopback_remote_addr net guess.remote_addr ≡ true))))
wrap_iff_example = wrap_iff net open_pprof guess
