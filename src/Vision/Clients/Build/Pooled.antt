-- ===== src/Vision/Clients/Build/Pooled.antt =====
-- Settings that Load accepts give a pool.
use blind_llm_eyes.Base.{
  suc, ℕ, length, ◌≡◌, ◌≢◌, refl, ap, String, str_eq, eq_iff, true, false, List, [], ◌∷◌, All,
  arith, Bool-cases, inl, inr,
}
use blind_llm_eyes.Base.Floats.{Floats}
use blind_llm_eyes.Base.Results.{Result, ok, ◌>>=◌, ◌>>◌, reject}
use blind_llm_eyes.Config.{ProviderCfg, Config, Outside}
use blind_llm_eyes.Config.Load.{default_str, fill_defaults, known_kind}
use blind_llm_eyes.Config.Whole.{load}
use blind_llm_eyes.Config.Providers.{IsUsable, AreUsable}
use blind_llm_eyes.Config.Ready.{load-IsReady}
use blind_llm_eyes.Vision.Pool.{PoolEntry, Member}
use blind_llm_eyes.Vision.Pool.Order.{IsProper, new_pool_iff}
use blind_llm_eyes.Vision.Clients.Build.{
  pooled, pool, new_pool, BuildError, Provider, mimo, openai, client_of, client_by_kind,
  build_provider, Network, entry_of, build_entries, build_pool,
}

default_kept : (d s : String) → s ≢ "" → default_str d s ≡ s
default_kept d s h = ground (arith, eq_iff s "")

fill_kept : (p : ProviderCfg) → p.base_url ≢ "" → p.model ≢ "" → fill_defaults p ≡ p
fill_kept p b m = ground (
  arith,
  default_kept "https://open.bigmodel.cn/api/paas/v4" p.base_url b,
  default_kept "https://dashscope.aliyuncs.com/compatible-mode/v1" p.base_url b,
  default_kept "glm-4v-flash" p.model m,
  default_kept "qwen-vl-plus" p.model m,
)

by_kind_ok :
    (p : ProviderCfg) → known_kind p.kind ≡ true → (b : Provider) × (client_by_kind p ≡ ok b)
by_kind_ok p h = elim (Bool-cases (str_eq p.kind "mimo")) [
  | inl e ↦ (mimo (client_of p), ground arith)
  | inr e ↦ (openai (client_of p), ground arith)
]

nonempty : (s : String) → s ≢ "" → str_eq s "" ≡ false
nonempty s h = ground (arith, eq_iff s "")

build_provider_ok : (p : ProviderCfg) → IsUsable p → (b : Provider) × (build_provider p ≡ ok b)
unfolding build_provider ◌>>◌ reject
build_provider_ok p u =
    let (b, e) = by_kind_ok p u.1 in
    (
      b,
      rw
          (
            fill_kept p u.2 u.4,
            nonempty p.base_url u.2,
            nonempty p.api_key u.3,
            nonempty p.model u.4,
          )
          e,
    )

long : {n : ℕ} (es : List PoolEntry) → es ≡ [] → length es ≡ suc n → ⊥
long [] e h = omega (arith, h)
long (x ∷ es) e h = cc

module _ (network : Network) where
  build_entries_ok :
      (ps : List ProviderCfg)
      → AreUsable ps
      → (es : List PoolEntry) × (build_entries network ps ≡ ok es)
        × (length es ≡ length ps)
        × IsProper es
        × ((n : String) → All (λ p. n ≢ p.name) ps → All (λ e. n ≢ e.name) es)
  unfolding build_entries ◌>>=◌ entry_of
  build_entries_ok [] u = ([], refl, refl, tt, λ n a. tt)
  build_entries_ok (p ∷ ps) u =
      let (b, built) = build_provider_ok p u.0 in
      let (es, rest, lengths, proper, apart) = build_entries_ok ps u.2 in
      (
        entry_of network p b ∷ es,
        rw (built, rest) refl,
        ap suc lengths,
        (u.0.0, (λ e. cc), apart p.name u.1, proper),
        λ n a. (a.0, apart n a.1),
      )

  pooled_ok :
      (r : Result BuildError (List PoolEntry)) (es : List PoolEntry) (ms : List Member)
      → r ≡ ok es
      → new_pool es ≡ pool ms
      → r >>= pooled network ≡ ok ms
  unfolding ◌>>=◌
  pooled_ok r es ms built made = rw built (ground (arith, made))

  build_pool_ok :
      (ps : List ProviderCfg)
      → ps ≢ []
      → AreUsable ps
      → (ms : List Member) × (build_pool network ps ≡ ok ms)
  unfolding build_pool
  build_pool_ok [] h u = absurd (h refl)
  build_pool_ok (p ∷ ps) h u =
      let (es, built, lengths, proper, apart) = build_entries_ok (p ∷ ps) u in
      let (ms, made) = (new_pool_iff es).1 ((λ e. long es e lengths), proper) in
      (ms, pooled_ok (build_entries network (p ∷ ps)) es ms built made)

  -- If Load succeeds and the settings list vision providers, BuildPool makes a pool of them.
  pub load-build_pool :
      (floats : Floats) (out : Outside (floats.Float)) (path : String) (c : Config (floats.Float))
      → load floats out path ≡ ok c
      → c.vision_providers ≢ []
      → (ms : List Member) × (build_pool network c.vision_providers ≡ ok ms)
  load-build_pool floats out path c h given =
      build_pool_ok c.vision_providers given (load-IsReady floats out path c h).3
