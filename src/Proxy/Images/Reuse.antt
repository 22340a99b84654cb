-- ===== src/Proxy/Images/Reuse.antt =====
-- What the image goroutines leave in the cache, and which calls the controller of the limit sees.
use blind_llm_eyes.Base.{suc, ◌≡◌, String, Bool, true, false, none, some, [], ◌∷◌, arith}
use blind_llm_eyes.Base.Caches.{CacheOps}
use blind_llm_eyes.Proxy.Images.{
  Task, Work, hash_failed, cache_hit, vision_call, process_image, process_images,
}

module _ (ops : CacheOps) (fail_open : Bool) where
  -- Two images with the same bytes, one after the other: when the goroutine of the first runs the
  -- vision call and is answered, that of the second takes this description from the cache, and asks
  -- for nothing.
  pub same_image_once :
      (t u : Task) (hash desc : String) (w : Work ops)
      → t.hash ≡ some hash
      → u.hash ≡ some hash
      → (ops.get hash w.cache).0 ≡ none
      → t.flight.ran ≡ true
      → t.flight.desc ≡ some desc
      → let first = process_image ops fail_open false t w in
        let both = process_images ops fail_open false (t ∷ (u ∷ [])) w in
        (both.1 ≡ none)
        × (both.0.cached ≡ suc w.cached)
        × (both.0.samples ≡ first.0.samples)
        × (both.0.cache ≡ (ops.get hash (ops.put hash desc (ops.get hash w.cache).1)).1)
  unfolding process_images process_image hash_failed cache_hit vision_call
  same_image_once t u hash desc w th uh miss ran answered =
      let there = ops.get-put hash desc (ops.get hash w.cache).1 in
      (ground arith, ground arith, ground arith, ground arith)

  -- A failed vision call leaves nothing in the cache: only the lookup has touched it.
  pub failure_not_cached :
      (t : Task) (hash : String) (w : Work ops)
      → t.hash ≡ some hash
      → t.flight.desc ≡ none
      → (process_image ops fail_open false t w).0.cache ≡ (ops.get hash w.cache).1
  unfolding process_image hash_failed cache_hit vision_call
  failure_not_cached t hash w th failed = ground arith

  -- An answer that was given to several goroutines leaves no sample for the controller, not even
  -- from the goroutine that ran the call.
  pub shared_call_no_sample :
      (t : Task) (w : Work ops)
      → t.flight.shared ≡ true
      → (process_image ops fail_open false t w).0.samples ≡ w.samples
  unfolding process_image hash_failed cache_hit vision_call
  shared_call_no_sample t w shared = ground arith
