-- ===== src/Vision/Clients/Build/Answers.antt =====
-- What a pool of clients answers: a description that one of the configured services has given.
use blind_llm_eyes.Base.{
  arith, ap, ◌≤◌, ℕ, ◌+◌, String, ◌≡◌, refl, sym, subst, ◌∙◌, ◌≢◌, some, List, [], ◌∷◌, All,
  some_eq,
}
use blind_llm_eyes.Base.Results.{
  Result, ok, err, >>=-eq-ok, reject->>-eq-ok, or_err->>=-eq-ok, ok_eq,
}
use blind_llm_eyes.Config.{ProviderCfg}
use blind_llm_eyes.Config.Providers.{not_empty}
use blind_llm_eyes.Vision.Pool
use blind_llm_eyes.Vision.Pool.{
  visit, Walk, start, Image, Described, described, refused, VisionProvider, PoolEntry, Member,
  NewPool, pool, invalid, pool_described, member, contains, check_entries, insert_member,
  sort_members, new_pool, call_provider,
}
use blind_llm_eyes.Vision.Pool.Steps.{
  turn, skips, serves, fails, visit_skip, visit_success, visit_failure, skipped_walk, failed_walk,
}
use blind_llm_eyes.Vision.Pool.Budget.{IsTimeout, select_timeout-IsTimeout}
use blind_llm_eyes.Vision.Clients.{Client, Web, ClientError}
use blind_llm_eyes.Vision.Clients.Mimo.Answers.{describe_image_internal_ok}
use blind_llm_eyes.Vision.Clients.Openai
use blind_llm_eyes.Vision.Clients.Build.Members.{Among, MemberOf, build_pool-MemberOf}
use blind_llm_eyes.Vision.Clients.Build.{
  non_negative, Provider, mimo, openai, build_provider, Network, describe, outcome_of, as_provider,
  entry_of, build_pool,
}

first_choice_full : (cs : List String) (t : String) → Openai.first_choice cs ≡ ok t → t ≢ ""
unfolding Openai.first_choice
first_choice_full [] t h = cc
first_choice_full (c ∷ cs) t h =
    let (full, h0) = reject->>-eq-ok _ h in rw (sym (ok_eq h0)) (not_empty c "" full)

openai_full :
    (web : Web) (c : Client) (image : Image) (context t : String)
    → Openai.describe_image_internal web c image context ≡ ok t
    → t ≢ ""
unfolding Openai.describe_image_internal
openai_full web c image context t h =
    let (configured, h0) = reject->>-eq-ok _ h in
    let (actual, prepared, h1) = >>=-eq-ok h0 in
    let (body, exchanged, h2) = >>=-eq-ok h1 in
    let (choices, parsed, h3) = or_err->>=-eq-ok _ h2 in first_choice_full choices t h3

module _ (network : Network) where
  -- Neither client answers with an empty description.
  pub describe_full :
      (now deadline : ℕ) (b : Provider) (image : Image) (context t : String)
      → describe network now deadline b image context ≡ ok t
      → t ≢ ""
  unfolding describe
  describe_full now deadline (mimo c) image context t h =
      let (actual, status, body, bs, a) = describe_image_internal_ok _ c image context t h in a.5
  describe_full now deadline (openai c) image context t h = openai_full _ c image context t h

  outcome_ok :
      (r : Result ClientError String) (t : String) → outcome_of network r ≡ described t → r ≡ ok t
  outcome_ok (ok a) t h = cc
  outcome_ok (err e) t h = cc

  -- The service of one of the settings has given the description: it was asked at `now`, not before
  -- `began`, under the timeout of its settings, and the call ended at `end`.
  abbrev pub Gave :
      List ProviderCfg → Image → (context : String) → (began end : ℕ) → (desc : String) → Type 0
  Gave ps image context began end desc =
      (desc ≢ "")
      × (p : ProviderCfg) × (b : Provider) × (now : ℕ) × (deadline : ℕ) × Among p ps
      × (build_provider p ≡ ok b)
      × IsTimeout (non_negative network p.timeout) (non_negative network p.large_timeout)
          (non_negative network p.large_image_threshold) image.image_size deadline
      × (began ≤ now)
      × (end ≡ now + network.took now deadline image context)
      × (describe network now deadline b image context ≡ ok desc)

  member-Gave :
      (ps : List ProviderCfg) (p : ProviderCfg) (b : Provider) (now : ℕ) (image : Image)
      (context desc : String)
      → Among p ps
      → build_provider p ≡ ok b
      → (call_provider
          (member (entry_of network p b) (as_provider network b))
          now
          image
          context).outcome
        ≡ described desc
      → Gave ps image context now
          (now
            + (call_provider
                (member (entry_of network p b) (as_provider network b))
                now
                image
                context).elapsed)
          desc
  unfolding call_provider as_provider member entry_of
  member-Gave ps p b now image context desc i built h =
      let m = member (entry_of network p b) (as_provider network b) in
      let deadline = Pool.select_timeout m image.image_size in
      let given = outcome_ok (describe network now deadline b image context) desc h in
      (
        describe_full now deadline b image context desc given,
        p,
        b,
        now,
        deadline,
        i,
        built,
        select_timeout-IsTimeout m image.image_size,
        omega arith,
        refl,
        given,
      )

  call_provider-Gave :
      (ps : List ProviderCfg) (m : Member) (now : ℕ) (image : Image) (context desc : String)
      → MemberOf network ps m
      → (call_provider m now image context).outcome ≡ described desc
      → Gave ps image context now (now + (call_provider m now image context).elapsed) desc
  call_provider-Gave ps m now image context desc (p, b, i, built, is) h =
      subst
        (λ (n : Member).
          Gave ps image context now (now + (call_provider n now image context).elapsed) desc)
        (sym is)
        (member-Gave ps p b now image context desc i built (
          subst (λ (n : Member). (call_provider n now image context).outcome ≡ described desc) is
            h))

  earlier-Gave :
      (ps : List ProviderCfg) (image : Image) (context : String) (began later end : ℕ)
      (desc : String)
      → began ≤ later
      → Gave ps image context later end desc
      → Gave ps image context began end desc
  earlier-Gave ps image context began later end desc h
        (full, p, b, now, deadline, i, built, limit, after, ends, given) =
      (full, p, b, now, deadline, i, built, limit, omega arith, ends, given)

  visit-Gave :
      (ps : List ProviderCfg) (image : Image) (context desc : String) (ms : List Member) (w : Walk)
      → All (MemberOf network ps) ms
      → (visit image context ms w).description ≡ some desc
      → Gave ps image context w.now (visit image context ms w).walk.now desc
  visit-Gave ps image context desc [] w a h = absurd (unfold visit in cc)
  visit-Gave ps image context desc (m ∷ ms) w a h = elim (turn image context m w) [
    | skips refuses ↦
        let e = visit_skip image context m ms w refuses in
        rw e (visit-Gave ps image context desc ms (skipped_walk image context m w) a.1 (rw e at h))
    | serves d passes answers ↦
        let e = visit_success image context m ms w d passes answers in
        let same = some_eq (rw e at h) in
        rw e (call_provider-Gave ps m w.now image context desc a.0 (answers ∙ ap described same))
    | fails reason passes failed ↦
        let e = visit_failure image context m ms w reason passes failed in
        let later = failed_walk image context m ms reason w in
        rw e (
          earlier-Gave ps image context w.now later.now _ desc (omega arith)
            (visit-Gave ps image context desc ms later a.1 (rw e at h)))
  ]

  -- If BuildPool makes a pool, and the pool answers a call with a description, then the
  -- description is not empty, and the client that BuildProvider makes of one of the settings has
  -- given it, for this image and this context: it was asked at a time not before the start of the
  -- call, under the timeout of those settings for an image of this size, and the pool has answered
  -- when that was over.
  pub build_pool_answers :
      (ps : List ProviderCfg) (ms : List Member) (now : ℕ) (image : Image) (context desc : String)
      → build_pool network ps ≡ ok ms
      → (Pool.describe_image_internal now image context ms).1 ≡ pool_described desc
      → Gave ps image context now
          (Pool.describe_image_internal now image context ms).0.walk.now
          desc
  unfolding Pool.describe_image_internal
  build_pool_answers ps ms now image context desc built answered =
      visit-Gave ps image context desc ms (start now) (build_pool-MemberOf network ps ms built)
        (ground arith)
