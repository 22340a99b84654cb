-- ===== src/Proxy/NewHandler.antt =====
-- proxy/handler.go: NewHandler, its guards, and its defaults for the fields of Deps that
-- the model of the handler reads. A panic is an error here.
use blind_llm_eyes.Base.{ℤ, pos, negsuc, str_eq, map}
use blind_llm_eyes.Base.Results.{Result, ok, ◌>>◌, reject}
use blind_llm_eyes.Config.Load.{default_int}
use blind_llm_eyes.Proxy.Hosts.{Net}
use blind_llm_eyes.Proxy.Handler.{Deps, loops, vision_loops}

pub data Panic : Type 0 where
  no_upstream upstream_is_proxy vision_is_proxy : Panic

-- if rounds < 0 { rounds = 0 }
abbrev pub not_negative : ℤ → ℤ
not_negative (pos n) = pos n
not_negative (negsuc n) = pos 0

-- The keys of the models are in lower case.
unfoldable pub new_handler : Net → Deps → Result Panic Deps
new_handler net deps = do
  reject (str_eq deps.upstream_base_url "") no_upstream
  reject (loops net deps.upstream_base_url deps) upstream_is_proxy
  reject (vision_loops net deps) vision_is_proxy
  ok (record deps {
    context_rounds = not_negative deps.context_rounds;
    context_max_chars = default_int 2000 deps.context_max_chars;
    vision_capable_models = map net.to_lower deps.vision_capable_models;
  })
