-- ===== src/Base/Caches.antt =====
-- cache/cache.go: the interface Cache, with what the proxy relies on of its implementations.
use mathlib.Core.Path.{◌≡◌}
use mathlib.Core.Option.{Option, some}
use Prim.Native.String.{String}

pub record CacheOps : Type 1 where
  pub Cache : Type 0
  -- Get may reorder the entries and bring an entry into a faster tier.
  pub get : String → Cache → Option String × Cache
  pub put : String → String → Cache → Cache
  -- what was just written is there
  pub get-put : (key value : String) (c : Cache) → (get key (put key value c)).0 ≡ some value
