-- ===== src/Cli/Cache/Cleared.antt =====
-- cli/cache.go: what the subcommand clear does to the table.
use blind_llm_eyes.Base.{
  split_if, ◌≡◌, refl, ◌≢◌, ◌⊎◌, inl, inr, Bool, true, not, ◌||◌, List, [], ◌∷◌, arith,
  if◌then◌else◌, branches,
}
use blind_llm_eyes.Cache.Sqlite.{Row}
use blind_llm_eyes.Config.{Config}
use blind_llm_eyes.Cli.Cache.{
  prompt, cancelled, ran, Terminal, Line, Ran, is_two_tier, confirmed, clear_rows, run_cache_clear,
}

-- All rows are gone, as asked for.
abbrev pub Emptied : {Float : Type 0} → Terminal → Bool → Config Float → Ran → Type 0
Emptied t assume_yes c r =
    (r.code ≡ 0)
    × (r.rows ≡ [])
    × (is_two_tier c ≡ true)
    × ((assume_yes ≡ true) ⊎ (confirmed t ≡ true))

abbrev pub Untouched : List Row → Ran → Type 0
Untouched rows r = (r.code ≢ 0) × (r.rows ≡ rows)

module _ {Float : Type 0} (t : Terminal) (assume_yes : Bool) (c : Config Float)
    (rows : List Row) where
  abbrev Settled : Ran → Type 0
  Settled r = Emptied t assume_yes c r ⊎ Untouched rows r

  clear_rows-Settled :
      (asked : List Line)
      → is_two_tier c ≡ true
      → (assume_yes ≡ true) ⊎ (confirmed t ≡ true)
      → Settled (clear_rows t asked rows)
  clear_rows-Settled asked two agreed =
      branches Settled (t.open_fails || t.delete_fails) _ _ (inr ((λ q. ground arith), refl))
        (inl (refl, refl, two, agreed))

  asked-Settled :
      is_two_tier c ≡ true
      → Settled (
          if confirmed t
          then clear_rows t (prompt ∷ []) rows
          else ran 2 (prompt ∷ (cancelled ∷ [])) rows)
  asked-Settled two =
      split_if Settled (confirmed t) _ _ (λ a. clear_rows-Settled (prompt ∷ []) two (inr a))
        (λ a. inr ((λ q. ground arith), refl))

  -- The subcommand clear either ends with 0, has deleted all rows, and was told to by the flag or the
  -- answer, with a cache that has a table, or it ends otherwise and the table is as it was.
  pub clear_all_or_nothing :
      Emptied t assume_yes c (run_cache_clear t assume_yes c rows)
      ⊎ Untouched rows (run_cache_clear t assume_yes c rows)
  unfolding run_cache_clear
  clear_all_or_nothing =
      split_if Settled (not (is_two_tier c)) _ _ (λ one. inr ((λ q. ground arith), refl))
        (λ two.
          split_if Settled assume_yes _ _ (λ y. clear_rows-Settled [] (ground (arith, two)) (inl y))
            (λ n. asked-Settled (ground (arith, two))))
