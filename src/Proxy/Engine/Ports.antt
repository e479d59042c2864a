-- ===== src/Proxy/Engine/Ports.antt =====
-- proxy/engine.py: the objects that the engine is given, as one interface over a state of type `S`,
-- and the functions of other packages that it calls.
use parcus.Prelude.{ℕ, Bool, Option, List}
use parcus.Text.{Text}
use parcus.Json.{Value}
use parcus.Model.{CanonicalRequest, CompressionStats, CachedResponse}
use parcus.Quota.{Buckets}
use parcus.Compress.Rewrite.{Counter}
use parcus.Cache.Seen.{PrefixSeenSet}

abbrev pub Bytes : Type 0
Bytes = List ℕ

-- An answer of none says that the call raised.
pub record Ports (S : Type 0) : Type 0 where
  -- `CompressorPort.compress`
  pub compress : S → CanonicalRequest → S × Option (CanonicalRequest × List CompressionStats)
  -- `CachePort.get` and `put`, with the time, the key and the tenant
  pub cache_get : S → ℕ → Text → Text → S × Option (Option CachedResponse)
  pub cache_put : S → ℕ → Text → CachedResponse → ℕ → Text → S
  -- `MemoryProvider.for_tenant`: whether the tenant has a memory
  pub has_memory : S → Text → S × Bool
  -- `MemoryPort.ingest` of the tenant's memory, and whether it returned
  pub ingest : S → Text → CanonicalRequest → S × Bool
  -- `MemoryPort.relevant` of the tenant's memory. One that raises answers with nothing here: both
  -- leave the request as it is.
  pub relevant : S → Text → ℕ → Text → List Text
  -- whether there is a `SimilarityCache`, its `lookup` and its `remember`
  pub has_similarity : Bool
  pub similar : S → Text → Value → Text → Option (Option Text)
  pub remember : S → Text → Text → Value → Text → S

-- Python's own functions and those of packages; `summarize` answers with the empty text where the
-- summariser raises, and both leave the request as it is. `utf8` raises for a lone surrogate.
pub record Externals : Type 0 where
  pub lower : Text → Text
  pub sha256_hex : Text → Text
  pub loads : Bytes → Option Value
  pub utf8 : Text → Option Bytes
  pub int_of : Text → Option ℕ
  pub count : Counter
  pub has_secret : Text → Option Bool
  pub summarize : ℕ → List Text → Text

-- The engine's state: the buckets of its rate limiter, its set of prefixes, and its ports.
pub record Engine (S : Type 0) : Type 0 where
  pub buckets : Buckets
  pub seen : PrefixSeenSet
  pub ports : S
