-- ===== src/Tests/Start.antt =====
-- The start of the server from a file that leaves much out.
use blind_llm_eyes.Base.{true, pos, ◌≡◌, refl, none, []}
use blind_llm_eyes.Base.Results.{Result, ok, err, ◌>>=◌, ◌>>◌, reject}
use blind_llm_eyes.Proxy.Adaptive.{new_controller}
use blind_llm_eyes.Proxy.Hosts.{is_self_referential_url, normalize_host}
use blind_llm_eyes.Messages.Validate.{trim_space}
use blind_llm_eyes.Proxy.Handler.{loops, vision_loops}
use blind_llm_eyes.Proxy.NewHandler.{new_handler}
use blind_llm_eyes.Cache.Lru.{new_lru}
use blind_llm_eyes.Vision.Pool.{new_pool, check_entries, contains}
use blind_llm_eyes.Vision.Clients.Build.{
  BuildError, build_pool, build_entries, entry_of, build_provider, trim_slashes,
}
use blind_llm_eyes.Server.Start.{
  AnyProvider, pooled, lru, Running, run_server, choose_provider, build_deps, build_cache,
  adaptive_settings,
}
use blind_llm_eyes.Server.Start.Sound.{IsSafe, run_server-IsSafe}
use blind_llm_eyes.Tests.Fractions.{fractions}
use blind_llm_eyes.Tests.Config.{ready, parsed, outside, loads}
use blind_llm_eyes.Tests.Clients.{network}
use blind_llm_eyes.Tests.Caches.{full, distinct}
use blind_llm_eyes.Tests.Doctor.{corrupt}
use blind_llm_eyes.Tests.Handler.{net}

abbrev members : Result BuildError AnyProvider → AnyProvider
members (ok p) = p
members (err e) = pooled []

abbrev served : Running fractions
served = record {
  deps = record {
    upstream_base_url = "https://upstream";
    upstream_api_key = "";
    fail_open = true;
    vision_base_url = none;
    vision_capable_models = [];
    listen_addr = "127.0.0.1:8790";
    context_rounds = pos 3;
    context_max_chars = pos 2000;
  };
  provider = members (choose_provider fractions network ready);
  cache = lru (new_lru 500);
  controller = new_controller fractions (adaptive_settings fractions ready);
}

starts :
    run_server fractions net network (outside parsed) corrupt full.rows "config.yaml" ≡ ok served
unfolding run_server choose_provider build_deps build_cache new_handler loops vision_loops
    build_pool build_entries entry_of new_pool ◌>>=◌ ◌>>◌ reject build_provider check_entries
    contains trim_slashes is_self_referential_url normalize_host trim_space
starts = rw loads refl

run_server-IsSafe_example : IsSafe fractions net ready full.rows served
run_server-IsSafe_example =
    run_server-IsSafe fractions net network (outside parsed) corrupt full.rows "config.yaml" ready
      served loads refl distinct starts
