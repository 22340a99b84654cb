-- ===== src/Proxy/Images.antt =====
-- proxy/handler.go, the goroutine of one image and the group of them. The goroutines touch different
-- blocks and shared counters, so a run of the group is the list of its goroutines in the order of
-- their work; a goroutine that waits for another's vision call gets that call's answer.
pub mod Counts
pub mod Replaced
pub mod Reuse
use blind_llm_eyes.Base.{
  ℕ, suc, String, Bool, true, false, if◌then◌else◌, Option, none, some, List, [], ◌∷◌, ◌++◌,
}
use blind_llm_eyes.Base.Caches.{CacheOps}
use blind_llm_eyes.Proxy.Adaptive.{Sample}
use blind_llm_eyes.Messages.Content.{RequestPtr, Message, update_at}
use blind_llm_eyes.Messages.Rewrite.{replace_image}

-- What singleflight answers: whether this goroutine ran the call, whether the answer was given to
-- several callers, and the description, or none on an error.
pub record Flight : Type 0 where
  pub ran : Bool
  pub shared : Bool
  pub desc : Option String
  pub exec_ms : ℕ

-- One image: its block, the hash of its bytes (none if they are no base64), and the flight that its
-- goroutine gets if it asks for one.
pub record Task : Type 0 where
  pub ptr : RequestPtr
  pub hash : Option String
  pub flight : Flight

pub data ImageError : Type 0 where
  hash_error vision_loop_error vision_error : ImageError

-- ImagesProcessedTotal, VisionCallsTotal, SFTotal and SFMerged by their labels
pub data Metric : Type 0 where
  image_rewritten image_cached image_failed : Metric
  vision_success vision_fail_open vision_failed : Metric
  sf_exec sf_wait sf_merged : Metric

module _ (ops : CacheOps) where
  open ops use {Cache, get, put}

  -- What the goroutines share: the request, the cache, the counters, the samples for the controller
  -- of the limit, and the metrics.
  pub record Work : Type 0 where
    pub messages : List Message
    pub cache : Cache
    pub rewritten : ℕ
    pub cached : ℕ
    pub failed : ℕ
    pub total_lookups : ℕ
    pub cache_hits : ℕ
    pub samples : List Sample
    pub metrics : List Metric

module _ (ops : CacheOps) where
  open ops use {Cache, get, put}

  abbrev report : List Metric → Work ops → Work ops
  report ms w = record w { metrics = w.metrics ++ ms }

  -- ReplaceImageWithDescription and rewritten.Add(1)
  abbrev replace : RequestPtr → String → Work ops → Work ops
  replace p text w = record w {
    messages = update_at p (replace_image text) w.messages;
    rewritten = suc w.rewritten;
  }

  unfoldable pub hash_failed : Bool → Task → Work ops → Work ops × Option ImageError
  hash_failed fail_open t w =
      if fail_open
      then (
        report (image_rewritten ∷ [])
            (replace t.ptr "[Image hash failed, unable to compute cache key]" w),
        none,
      )
      else (w, some hash_error)

  unfoldable pub cache_hit : Task → String → Work ops → Work ops
  cache_hit t desc w =
      let r = replace t.ptr desc w in
      report (image_cached ∷ []) (record r { cached = suc r.cached; cache_hits = suc r.cache_hits })

  -- The function under singleflight writes the cache when the call succeeded.
  abbrev write_cache : String → Bool → Option String → Cache → Cache
  write_cache hash true (some d) c = put hash d c
  write_cache hash true none c = c
  write_cache hash false desc c = c

  abbrev is_error : Option String → Bool
  is_error none = true
  is_error (some d) = false

  -- SFTotal, and a sample for the controller unless the answer was shared
  abbrev after_flight : Flight → Work ops → Work ops
  after_flight f w =
      if f.shared then report (sf_wait ∷ (sf_merged ∷ [])) w else record (report (sf_exec ∷ []) w) {
        samples = w.samples ++ (record { exec_ms = f.exec_ms; is_err = is_error f.desc } ∷ []);
      }

  abbrev answer : Bool → Task → Option String → Work ops → Work ops × Option ImageError
  answer fail_open t (some desc) w =
      (report (vision_success ∷ (image_rewritten ∷ [])) (replace t.ptr desc w), none)
  answer true t none w = (
    report (vision_fail_open ∷ (image_rewritten ∷ []))
        (replace t.ptr "[Image could not be described by vision model]" w),
    none,
  )
  answer false t none w = (
    report (vision_failed ∷ (image_failed ∷ [])) (record w { failed = suc w.failed }),
    some vision_error,
  )

  unfoldable pub vision_call : Bool → Task → String → Work ops → Work ops × Option ImageError
  vision_call fail_open t hash w = answer fail_open t t.flight.desc (
      after_flight t.flight
        (record w { cache = write_cache hash t.flight.ran t.flight.desc w.cache }))

  -- The goroutine of one image. vision_loop: the provider's base_url is the proxy's own address.
  abbrev cache_miss :
      (fail_open vision_loop : Bool) → Task → String → Work ops → Work ops × Option ImageError
  cache_miss fail_open vision_loop t hash w =
      if vision_loop then (w, some vision_loop_error) else vision_call fail_open t hash w

  unfoldable pub process_image :
      (fail_open vision_loop : Bool) → Task → Work ops → Work ops × Option ImageError
  process_image fail_open vision_loop t before =
      let w = record before { total_lookups = suc before.total_lookups } in
      elim t.hash [
        | none ↦ hash_failed fail_open t w
        | some hash ↦
            let found = get hash w.cache in
            let looked = record w { cache = found.1 } in
            elim found.0 [
              | some desc ↦ (cache_hit t desc looked, none)
              | none ↦ cache_miss fail_open vision_loop t hash looked
            ]
      ]

  abbrev or_else : Option ImageError → Option ImageError → Option ImageError
  or_else none e = e
  or_else (some e) d = some e

  -- g.Wait: every goroutine has run, and the first error is the answer.
  unfoldable pub process_images :
      (fail_open vision_loop : Bool) → List Task → Work ops → Work ops × Option ImageError
  process_images fail_open vision_loop [] w = (w, none)
  process_images fail_open vision_loop (t ∷ ts) w =
      let one = process_image fail_open vision_loop t w in
      let rest = process_images fail_open vision_loop ts one.0 in (rest.0, or_else one.1 rest.1)
