-- ===== src/Proxy/Images/Counts.antt =====
-- What a run of the image goroutines counts, and when it fails.
use blind_llm_eyes.Base.{
  Option, inl, inr, refl, ◌⊎◌, Option-cases, suc, some, none, String, false, true, ℕ, ◌+◌, ◌≡◌,
  Bool, List, [], ◌∷◌, length, arith,
}
use blind_llm_eyes.Base.Caches.{CacheOps}
use blind_llm_eyes.Proxy.Images.{
  ImageError, hash_error, vision_loop_error, vision_error, Task, Work, hash_failed, cache_hit,
  vision_call, process_image, process_images,
}

unfoldable pub sum_of : (Option ImageError → ℕ) → List (Option ImageError) → ℕ
sum_of f [] = 0
sum_of f (e ∷ es) = f e + sum_of f es

-- An image counts as rewritten if its goroutine returns no error, and as failed if the vision model
-- does not describe it; the other errors count as neither.
abbrev counts_rewritten : Option ImageError → ℕ
counts_rewritten none = 1
counts_rewritten (some e) = 0

abbrev counts_failed : Option ImageError → ℕ
counts_failed (some vision_error) = 1
counts_failed (some hash_error) = 0
counts_failed (some vision_loop_error) = 0
counts_failed none = 0

module _ (ops : CacheOps) (fail_open vision_loop : Bool) where
  -- What the goroutines return, one after the other.
  unfoldable pub returned : List Task → Work ops → List (Option ImageError)
  returned [] w = []
  returned (t ∷ ts) w =
      let one = process_image ops fail_open vision_loop t w in one.1 ∷ returned ts one.0

  -- Whether the image is in the cache that its goroutine finds.
  abbrev is_hit : Task → ops.Cache → ℕ
  is_hit t c = elim t.hash [ none ↦ 0 | some h ↦ elim (ops.get h c).0 [ none ↦ 0 | some d ↦ 1 ] ]

  unfoldable pub hits : List Task → Work ops → ℕ
  hits [] w = 0
  hits (t ∷ ts) w = is_hit t w.cache + hits ts (process_image ops fail_open vision_loop t w).0

  -- What the counters are behind the run.
  abbrev pub Counted : List Task → Work ops → Work ops → Type 0
  Counted ts before after =
      (after.total_lookups ≡ length ts + before.total_lookups)
      × (after.rewritten ≡ sum_of counts_rewritten (returned ts before) + before.rewritten)
      × (after.failed ≡ sum_of counts_failed (returned ts before) + before.failed)
      × (after.cached ≡ hits ts before + before.cached)
      × (after.cache_hits ≡ hits ts before + before.cache_hits)

  process_image-Counted :
      (t : Task) (w : Work ops) → Counted (t ∷ []) w (process_image ops fail_open vision_loop t w).0
  unfolding process_image hash_failed cache_hit vision_call returned hits sum_of
  process_image-Counted t w = (ground arith, ground arith, ground arith, ground arith, ground arith)

  -- Whatever the images, the cache and the answers of the vision model: the counter of the lookups
  -- rises by the number of the goroutines, that of the rewritten images by the number of the
  -- goroutines that return no error, that of the failed images by the number of those whose error
  -- is that of the vision model, and those of the cached images and of the cache hits by the
  -- number of the images that are in the cache when their goroutine looks.
  pub process_images-Counted :
      (ts : List Task) (w : Work ops)
      → Counted ts w (process_images ops fail_open vision_loop ts w).0
  unfolding process_images returned hits sum_of
  process_images-Counted [] w = (omega arith, omega arith, omega arith, omega arith, omega arith)
  process_images-Counted (t ∷ ts) w =
      let a = process_image-Counted t w in
      let b = process_images-Counted ts (process_image ops fail_open vision_loop t w).0 in
      (
        omega (arith, a.0, b.0),
        omega (arith, a.1, b.1),
        omega (arith, a.2, b.2),
        omega (arith, a.3, b.3),
        omega (arith, a.4, b.4),
      )

module _ (ops : CacheOps) where
  process_image_open :
      (t : Task) (w : Work ops)
      → ((process_image ops true false t w).1 ≡ none)
        × ((process_image ops true false t w).0.rewritten ≡ suc w.rewritten)
  unfolding process_image hash_failed cache_hit vision_call
  process_image_open t w = (ground arith, ground arith)

  -- With fail_open, and a vision provider that is not the proxy itself, the images never fail a
  -- request, and every one of them is rewritten.
  pub fail_open_never_fails :
      (ts : List Task) (w : Work ops)
      → ((process_images ops true false ts w).1 ≡ none)
        × ((process_images ops true false ts w).0.rewritten ≡ length ts + w.rewritten)
  unfolding process_images
  fail_open_never_fails [] w = (refl, omega arith)
  fail_open_never_fails (t ∷ ts) w =
      let a = process_image_open t w in
      let b = fail_open_never_fails ts (process_image ops true false t w).0 in
      (ground (arith, a.0, b.0), omega (arith, a.1, b.1))

  -- The image has an answer: it is in the cache, or its bytes can be hashed and the vision model
  -- describes it.
  abbrev pub HasAnswer : Task → Work ops → Type 0
  HasAnswer t w =
      (h : String) × (t.hash ≡ some h)
      × (((d : String) × ((ops.get h w.cache).0 ≡ some d))
          ⊎ ((d : String) × (t.flight.desc ≡ some d)))

  process_image_closed :
      (t : Task) (w : Work ops) → (process_image ops false false t w).1 ≡ none → HasAnswer t w
  unfolding process_image hash_failed cache_hit vision_call
  process_image_closed t w h = elim (Option-cases t.hash) [
    | inl e ↦ absurd (ground arith)
    | inr (k, e) ↦ elim (Option-cases (ops.get k w.cache).0) [
      | inr (d, f) ↦ (k, e, inl (d, f))
      | inl f ↦ elim (Option-cases t.flight.desc) [
        | inl g ↦ absurd (ground arith)
        | inr (d, g) ↦ (k, e, inr (d, g))
      ]
    ]
  ]

  -- Every image has an answer when its goroutine works.
  unfoldable pub Answered : List Task → Work ops → Type 0
  Answered [] w = Unit
  Answered (t ∷ ts) w = HasAnswer t w × Answered ts (process_image ops false false t w).0

  -- Without fail_open the group succeeds only if every image is in the cache or is described.
  pub fail_closed_needs_answers :
      (ts : List Task) (w : Work ops)
      → (process_images ops false false ts w).1 ≡ none
      → Answered ts w
  unfolding process_images Answered
  fail_closed_needs_answers [] w h = tt
  fail_closed_needs_answers (t ∷ ts) w h =
      elim (Option-cases (process_image ops false false t w).1) [
        | inl e ↦ (
          process_image_closed t w e,
          fail_closed_needs_answers ts (process_image ops false false t w).0 (ground arith),
        )
        | inr (x, e) ↦ absurd (ground arith)
      ]
