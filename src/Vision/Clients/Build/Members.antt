-- ===== src/Vision/Clients/Build/Members.antt =====
-- The members of a pool that BuildPool makes are the clients of its settings.
use blind_llm_eyes.Base.{
  ap, ap₂, ltb_ℤ, ◌≡◌, refl, sym, subst, ◌∙◌, ◌⊎◌, inl, inr, Option, none, some, List, [], ◌∷◌, All,
  branches, some_eq,
}
use blind_llm_eyes.Base.Results.{Result, ok, err, >>=-eq-ok, ok_eq}
use blind_llm_eyes.Config.{ProviderCfg}
use blind_llm_eyes.Vision.Pool.{
  VisionProvider, PoolEntry, Member, NewPool, pool, invalid, member, insert_member, sort_members,
  new_pool,
}
use blind_llm_eyes.Vision.Pool.Order.{checked, new_pool_inversion}
use blind_llm_eyes.Vision.Clients.Build.{
  BuildError, bad_pool, Provider, build_provider, Network, as_provider, entry_of, build_entries,
  build_pool,
}

-- p is one of the list.
abbrev pub Among : ProviderCfg → List ProviderCfg → Type 0
Among p [] = ⊥
Among p (q ∷ qs) = (p ≡ q) ⊎ Among p qs

module _ (network : Network) where
  -- The entry is that of one of the settings, with the client that is built of them.
  abbrev EntryOf : List ProviderCfg → PoolEntry → Type 0
  EntryOf ps e =
      (p : ProviderCfg) × (b : Provider) × Among p ps
      × (build_provider p ≡ ok b)
      × (e ≡ entry_of network p b)

  abbrev pub MemberOf : List ProviderCfg → Member → Type 0
  MemberOf ps m =
      (p : ProviderCfg) × (b : Provider) × Among p ps
      × (build_provider p ≡ ok b)
      × (m ≡ member (entry_of network p b) (as_provider network b))

  later_entries :
      (p : ProviderCfg) (ps : List ProviderCfg) (es : List PoolEntry)
      → All (EntryOf ps) es
      → All (EntryOf (p ∷ ps)) es
  later_entries p ps [] a = tt
  later_entries p ps (e ∷ es) ((q, b, i, built, is), a) =
      ((q, b, inr i, built, is), later_entries p ps es a)

  build_entries-EntryOf :
      (ps : List ProviderCfg) (es : List PoolEntry)
      → build_entries network ps ≡ ok es
      → All (EntryOf ps) es
  unfolding build_entries
  build_entries-EntryOf [] es h = subst (All (EntryOf [])) (ok_eq h) tt
  build_entries-EntryOf (p ∷ ps) es h =
      let (b, built, h0) = >>=-eq-ok h in
      let (rest, others, h1) = >>=-eq-ok h0 in
      subst (All (EntryOf (p ∷ ps))) (ok_eq h1) (
        (p, b, inl refl, built, refl),
        later_entries p ps rest (build_entries-EntryOf ps rest others),
      )

  insert-MemberOf :
      (ps : List ProviderCfg) (m : Member) (ms : List Member)
      → MemberOf ps m
      → All (MemberOf ps) ms
      → All (MemberOf ps) (insert_member m ms)
  unfolding insert_member
  insert-MemberOf ps m [] h a = (h, tt)
  insert-MemberOf ps m (n ∷ ns) h a =
      branches (All (MemberOf ps)) (ltb_ℤ n.priority m.priority) (n ∷ insert_member m ns)
        (m ∷ n ∷ ns) (a.0, insert-MemberOf ps m ns h a.1) (h, a)

  sort-MemberOf :
      (ps : List ProviderCfg) (ms : List Member)
      → All (MemberOf ps) ms
      → All (MemberOf ps) (sort_members ms)
  unfolding sort_members
  sort-MemberOf ps [] a = tt
  sort-MemberOf ps (m ∷ ms) a = insert-MemberOf ps m (sort_members ms) a.0 (sort-MemberOf ps ms a.1)

  same_provider :
      (e : PoolEntry) (p : ProviderCfg) (b : Provider) (v : VisionProvider)
      → e ≡ entry_of network p b
      → e.provider ≡ some v
      → v ≡ as_provider network b
  unfolding entry_of
  same_provider e p b v is h = some_eq (sym h ∙ ap (λ x. x.provider) is)

  checked-MemberOf :
      (ps : List ProviderCfg) (es : List PoolEntry)
      → All (EntryOf ps) es
      → All (MemberOf ps) (checked es)
  unfolding checked
  checked-MemberOf ps [] a = tt
  checked-MemberOf ps (e ∷ es) a = with_provider e.provider refl (checked-MemberOf ps es a.1)
    where
      with_provider :
          (o : Option VisionProvider)
          → e.provider ≡ o
          → All (MemberOf ps) (checked es)
          → All (MemberOf ps) (checked (e ∷ es))
      with_provider none h rest = rw h rest
      with_provider (some v) h rest =
          let (p, b, i, built, is) = a.0 in
          rw h ((p, b, i, built, ap₂ member is (same_provider e p b v is h)), rest)

  pooled-MemberOf :
      (ps : List ProviderCfg) (es : List PoolEntry) (ms : List Member) (r : NewPool)
      → All (EntryOf ps) es
      → new_pool es ≡ r
      → elim r as (λ _. Result BuildError (List Member)) [
        | pool ms ↦ ok ms
        | invalid e ↦ err (bad_pool e)
      ]
        ≡ ok ms
      → All (MemberOf ps) ms
  pooled-MemberOf ps es ms (pool ns) a e h =
      let (given, proper, sorted) = new_pool_inversion es ns e in
      subst (All (MemberOf ps)) (sym sorted ∙ ok_eq h)
        (sort-MemberOf ps (checked es) (checked-MemberOf ps es a))
  pooled-MemberOf ps es ms (invalid x) a e h = cc

  pub build_pool-MemberOf :
      (ps : List ProviderCfg) (ms : List Member)
      → build_pool network ps ≡ ok ms
      → All (MemberOf ps) ms
  unfolding build_pool
  build_pool-MemberOf [] ms h = cc
  build_pool-MemberOf (p ∷ ps) ms h =
      let (es, built, h0) = >>=-eq-ok h in
      pooled-MemberOf (p ∷ ps) es ms (new_pool es) (build_entries-EntryOf (p ∷ ps) es built) refl h0
