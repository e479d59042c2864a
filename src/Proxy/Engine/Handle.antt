-- ===== src/Proxy/Engine/Handle.antt =====
-- proxy/engine.py, `_handle`. It awaits the upstream once, and between the call and the answer other
-- requests run; so it is two steps: `begin` here, up to the call, and `finish` of the
-- module Finish, from the answer on.
use parcus.Prelude.{ℕ, Bool, true, false, not, ◌||◌, Option, none, some, if◌then◌else◌}
use parcus.Text.{Text}
use parcus.Model.{Dialect, CanonicalRequest, request_text, CachedResponse}
use parcus.Quota.{RateLimit}
use parcus.Cache.Policy.{CachePolicy}
use parcus.Proxy.Dialects.Parse.{detect}
use parcus.Proxy.Engine.{EngineConfig, forward_headers, maybe_cache_key}
use parcus.Proxy.Engine.Admit.{
  Admission, unrouted, unauthorized, limited, admitted, tenant_of, admit,
}
use parcus.Proxy.Engine.Ports.{Bytes, Ports, Externals, Engine}
use parcus.Proxy.Engine.Memory.{MemoryAction, apply_memory, is_compacted}
use parcus.Proxy.Engine.Outbound.{tokens_of, stage_stats, canonicalize, Outbound, compress_request}
use parcus.Proxy.Engine.Result.{
  cache_off, cache_miss, cache_hit, cache_similar, Measured, Meta, bare_meta, Request,
  UpstreamRequest, Pending, Begun, replied, forwarded, upstream_url, unroutable, unlabelled, denied,
  shed, from_cache,
}

abbrev pub is_some {ℓ} : {A : Type ℓ} → Option A → Bool
is_some none = false
is_some (some a) = true

-- `_cache_get` and the inner call of `_similar_hit`: a call that raises is a miss.
abbrev pub or_miss : Option (Option CachedResponse) → Option CachedResponse
or_miss none = none
or_miss (some hit) = hit

abbrev pub or_none : Option (Option Text) → Option Text
or_none none = none
or_none (some key) = key

unfoldable pub measure :
    Externals → CanonicalRequest → CanonicalRequest → MemoryAction → Outbound → Measured
unfolding tokens_of stage_stats
measure ext canonical working action out = record {
  tokens_before = tokens_of ext canonical;
  tokens_after = tokens_of ext out.chosen;
  memory = action;
  inject = is_some out.chosen.cache_breakpoint;
  stages = stage_stats ext canonical working (is_compacted action) out.stats;
}

-- The request that is sent on with a body, and what is kept of it until the answer.
unfoldable pub upstream_to : Externals → Text → Request → Bytes → UpstreamRequest
unfolding forward_headers
upstream_to ext url request body = record {
  method = request.method;
  url = url;
  headers = forward_headers ext.lower request.headers;
  content = body;
}

abbrev pub awaiting : Option CanonicalRequest → Meta → Pending
awaiting canonical meta = record {
  dialect = meta.dialect;
  tenant = meta.tenant;
  canonical = canonical;
  cache_key = none;
  meta = meta;
}

abbrev pub measured_meta : Dialect → Text → Measured → Meta
measured_meta dialect tenant m = record (bare_meta dialect cache_off tenant) { measured = some m }

-- Compacted bodies are not cached.
unfoldable pub key_of :
    Externals → EngineConfig → CachePolicy → MemoryAction → CanonicalRequest → Text → Option Text
unfolding maybe_cache_key
key_of ext config policy action r tenant =
    if is_compacted action
    then none
    else maybe_cache_key ext.sha256_hex config policy ext.has_secret r tenant

module _ {S : Type 0} (ext : Externals) (ports : Ports S) (config : EngineConfig)
    (policy : CachePolicy) where
  -- `_similar_hit`
  unfoldable pub similar_hit : S → ℕ → CanonicalRequest → Text → S × Option CachedResponse
  unfolding request_text
  similar_hit s now canonical tenant =
      if not ports.has_similarity || canonical.stream
      then (s, none)
      else elim (or_none (ports.similar s (request_text canonical) canonical.model tenant)) [
        | none ↦ (s, none)
        | some neighbour ↦
            let (s', hit) = ports.cache_get s now neighbour tenant in (s', or_miss hit)
      ]

  -- The exact cache is asked first, then the similar one.
  unfoldable pub consult :
      Engine S
      → ℕ
      → Text
      → Meta
      → CanonicalRequest
      → Text
      → UpstreamRequest
      → Pending
      → Engine S × Begun
  unfolding similar_hit from_cache
  consult engine now key meta canonical tenant out pending =
      let (s1, hit) = ports.cache_get engine.ports now key tenant in
      let missed = record meta { cache = cache_miss } in
      let (s2, similar) = similar_hit s1 now canonical tenant in
      elim (or_miss hit) [
        | some response ↦
            (record engine { ports = s1 }, replied (from_cache cache_hit meta response))
        | none ↦ elim similar [
          | some response ↦
              (record engine { ports = s2 }, replied (from_cache cache_similar missed response))
          | none ↦ (
            record engine { ports = s2 },
            forwarded out (record pending { meta = missed; cache_key = some key }),
          )
        ]
      ]

  -- The caches are asked if the request has a key.
  unfoldable pub with_key :
      Engine S
      → ℕ
      → Option Text
      → Meta
      → CanonicalRequest
      → Text
      → UpstreamRequest
      → Pending
      → Engine S × Begun
  unfolding consult
  with_key engine now none meta canonical tenant out pending = (engine, forwarded out pending)
  with_key engine now (some key) meta canonical tenant out pending =
      consult engine now key meta canonical tenant out pending

  -- A canonicalized request: memory, compression, and the caches.
  unfoldable pub optimize :
      Engine S → ℕ → Dialect → Text → Text → Request → CanonicalRequest → Engine S × Begun
  unfolding apply_memory compress_request measure key_of with_key upstream_to
  optimize engine now dialect url tenant request canonical =
      let (s1, working, action) = apply_memory ext ports config engine.ports canonical tenant in
      let (seen, s2, out) =
        compress_request ext ports config engine.seen s1 now working request.body tenant in
      let meta = measured_meta dialect tenant (measure ext canonical working action out) in
      with_key (record engine { seen = seen; ports = s2 }) now
        (key_of ext config policy action canonical tenant) meta canonical tenant
        (upstream_to ext url request out.body) (awaiting (some canonical) meta)

  -- A request that is not canonicalized is forwarded as it is.
  unfoldable pub proceed :
      Engine S → ℕ → Dialect → Text → Text → Request → Option CanonicalRequest → Engine S × Begun
  unfolding optimize upstream_to
  proceed engine now dialect url tenant request none = (
    engine,
    forwarded (upstream_to ext url request request.body)
        (awaiting none (bare_meta dialect cache_off tenant)),
  )
  proceed engine now dialect url tenant request (some canonical) =
      optimize engine now dialect url tenant request canonical

  -- An admitted request.
  unfoldable pub process : Engine S → ℕ → Dialect → Text → Text → Request → Engine S × Begun
  unfolding upstream_url canonicalize proceed
  process engine now dialect base tenant request =
      proceed engine now dialect (upstream_url base request.path request.query) tenant request
        (canonicalize ext config dialect request.body request.path)

  -- What the guards decided; a second has `ticks` ticks.
  unfoldable pub dispatch :
      ℕ → Engine S → ℕ → Dialect → Text → Request → Admission → Engine S × Begun
  unfolding process shed
  dispatch ticks engine now dialect tenant request unrouted =
      (engine, replied (unroutable unlabelled))
  dispatch ticks engine now dialect tenant request unauthorized =
      (engine, replied (denied dialect cache_off tenant))
  dispatch ticks engine now dialect tenant request (limited wait) =
      (engine, replied (shed ticks dialect cache_off tenant wait))
  dispatch ticks engine now dialect tenant request (admitted base t) =
      process engine now dialect base t request

  -- `_handle` up to the call of the upstream.
  unfoldable pub begin : ℕ → Option RateLimit → Engine S → ℕ → Request → Engine S × Begun
  unfolding detect admit dispatch tenant_of
  begin ticks limiter engine now request =
      let dialect = detect request.path in
      let (buckets, admission) =
        admit ext.lower ext.sha256_hex config limiter now dialect request.headers engine.buckets in
      let tenant = tenant_of ext.lower ext.sha256_hex config request.headers in
      dispatch ticks (record engine { buckets = buckets }) now dialect tenant request admission
