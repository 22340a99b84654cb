-- ===== src/Vision/Clients/Build.antt =====
-- vision/provider.go: BuildProvider, BuildSingleProvider and BuildPool.
pub mod Pooled
pub mod Members
pub mod Answers
use Prim.Native.Char.{code}
use Prim.Native.String.{[] as empty, ◌∷◌ as ◌∷ₛ◌}
use blind_llm_eyes.Base.{
  ℕ, ℤ, pos, negsuc, String, str_eq, true, ◌&&◌, ◌||◌, ◌==◌, if◌then◌else◌, some, List, [], ◌∷◌,
}
use blind_llm_eyes.Base.Results.{Result, ok, err, ◌>>=◌, ◌>>◌, reject}
use blind_llm_eyes.Config.{ProviderCfg, VisionCfg}
use blind_llm_eyes.Config.Load.{fill_defaults}
use blind_llm_eyes.Vision.Breaker.{new_circuit_breaker}
use blind_llm_eyes.Vision.Pool.{
  Image, Described, described, refused, VisionProvider, PoolEntry, PoolError, Member, pool, invalid,
  new_pool,
}
use blind_llm_eyes.Vision.Clients.{Client, Web, ClientError}
use blind_llm_eyes.Vision.Clients.Mimo
use blind_llm_eyes.Vision.Clients.Openai

pub data BuildError : Type 0 where
  base_url_required api_key_required model_required unknown_type empty_list : BuildError
  bad_pool : PoolError → BuildError

-- The two implementations of VisionProvider that are clients.
pub data Provider : Type 0 where
  mimo openai : Client → Provider

-- strings.TrimRight(u, "/")
unfoldable pub trim_slashes : String → String
trim_slashes empty = ""
trim_slashes (c ∷ₛ s) =
    let rest = trim_slashes s in if code c == 47 && str_eq rest "" then "" else c ∷ₛ rest

abbrev client_of : ProviderCfg → Client
client_of p = record {
  base_url = trim_slashes p.base_url;
  api_key = p.api_key;
  model = p.model;
  description_cap = p.description_cap;
  timeout = p.timeout;
  large_timeout = p.large_timeout;
  large_image_threshold = p.large_image_threshold;
  supported_formats = p.supported_formats;
}

-- switch pc.Type
abbrev pub client_by_kind : ProviderCfg → Result BuildError Provider
client_by_kind pc =
    if str_eq pc.kind "mimo"
    then ok (mimo (client_of pc))
    else if str_eq pc.kind "openai_compatible" || str_eq pc.kind "glm_free" || str_eq pc.kind "qwen"
    then ok (openai (client_of pc))
    else err unknown_type

unfoldable pub build_provider : ProviderCfg → Result BuildError Provider
build_provider given = do
  let pc = fill_defaults given
  reject (str_eq pc.base_url "") base_url_required
  reject (str_eq pc.api_key "") api_key_required
  reject (str_eq pc.model "") model_required
  client_by_kind pc

unfoldable pub build_single_provider : VisionCfg → Result BuildError Provider
build_single_provider vc = do
  reject (str_eq vc.base_url "") base_url_required
  reject (str_eq vc.api_key "") api_key_required
  reject (str_eq vc.model "") model_required
  ok (
      mimo (record {
        base_url = trim_slashes vc.base_url;
        api_key = vc.api_key;
        model = vc.model;
        description_cap = vc.description_cap;
        timeout = vc.timeout;
        large_timeout = vc.large_timeout;
        large_image_threshold = vc.large_image_threshold;
        supported_formats = vc.supported_formats;
      }))

-- The network at a time and under the deadline of the caller, how long a call takes then, and the
-- text of an error.
pub record Network : Type 1 where
  pub web : ℕ → ℕ → Web
  pub took : ℕ → ℕ → Image → String → ℕ
  pub error_text : ClientError → String

module _ (network : Network) where
  open network use {web, took, error_text}

  unfoldable pub describe : ℕ → ℕ → Provider → Image → String → Result ClientError String
  describe now deadline (mimo c) image context =
      Mimo.describe_image_internal (web now deadline) c image context
  describe now deadline (openai c) image context =
      Openai.describe_image_internal (web now deadline) c image context

  abbrev pub outcome_of : Result ClientError String → Described
  outcome_of (ok text) = described text
  outcome_of (err e) = refused (error_text e)

  -- A client as the pool sees it; both clients have both methods.
  unfoldable pub as_provider : Provider → VisionProvider
  as_provider p = record {
    is_contextual = true;
    describe_image = λ now deadline image. record {
      outcome = outcome_of (describe now deadline p image "");
      elapsed = took now deadline image "";
    };
    describe_image_with_context = λ now deadline image context. record {
      outcome = outcome_of (describe now deadline p image context);
      elapsed = took now deadline image context;
    };
  }

  abbrev pub non_negative : ℤ → ℕ
  non_negative (pos n) = n
  non_negative (negsuc n) = 0

  unfoldable pub entry_of : ProviderCfg → Provider → PoolEntry
  entry_of pc p = record {
    name = pc.name;
    provider = some (as_provider p);
    priority = pc.priority;
    cb =
        some (
          new_circuit_breaker pc.circuit_breaker.failure_threshold
            pc.circuit_breaker.reset_timeout);
    timeout = non_negative pc.timeout;
    large_timeout = non_negative pc.large_timeout;
    large_image_threshold = non_negative pc.large_image_threshold;
  }

  unfoldable pub build_entries : List ProviderCfg → Result BuildError (List PoolEntry)
  build_entries [] = ok []
  build_entries (pc ∷ pcs) =
      let rest = build_entries pcs in
      (build_provider pc >>= λ p. (rest >>= λ es. ok (entry_of pc p ∷ es)))

  abbrev pub pooled : List PoolEntry → Result BuildError (List Member)
  pooled es = elim (new_pool es) [ pool ms ↦ ok ms | invalid e ↦ err (bad_pool e) ]

  unfoldable pub build_pool : List ProviderCfg → Result BuildError (List Member)
  build_pool [] = err empty_list
  build_pool (pc ∷ pcs) = build_entries (pc ∷ pcs) >>= pooled
