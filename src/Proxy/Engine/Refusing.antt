-- ===== src/Proxy/Engine/Refusing.antt =====
-- proxy/engine.py: the requests that `_handle` and `prepare_stream` refuse, and those they leave alone.
use parcus.Prelude.{arith, ℕ, ◌≡◌, refl, Bool, Option, none, some}
use parcus.Text.{Text}
use parcus.Json.{Value}
use parcus.Model.{Dialect, CachedResponse}
use parcus.Quota.{RateLimit}
use parcus.Cache.Policy.{CachePolicy}
use parcus.Proxy.Dialects.Parse.{detect}
use parcus.Proxy.Engine.{EngineConfig}
use parcus.Proxy.Engine.Admit.{
  Admission, unrouted, unauthorized, limited, admitted, status, tenant_of, admit,
}
use parcus.Proxy.Engine.Ports.{Ports, Externals, Engine}
use parcus.Proxy.Engine.Memory.{apply_memory}
use parcus.Proxy.Engine.Outbound.{canonicalize, compress_request}
use parcus.Proxy.Engine.Result.{
  ProxyResult, shed, Request, UpstreamRequest, Pending, Begun, replied, forwarded,
}
use parcus.Proxy.Engine.Handle.{measure, upstream_to, proceed, process, dispatch, begin}
use parcus.Proxy.Engine.Stream.{StreamPlan, plan, dispatch_stream, routed_url, prepare_stream}

-- Both entries refuse, with the status of what the guards decided, and leave the engine so.
abbrev pub BothRefuse :
    {S : Type 0} → ℕ → Engine S → Engine S × Begun → Engine S × StreamPlan → Type 0
BothRefuse code engine handled streamed =
    (handled.0 ≡ engine)
    × (streamed.0 ≡ engine)
    × ((result : ProxyResult) × (handled.1 ≡ replied result) × (result.status_code ≡ code))
    × ((result : ProxyResult) × (streamed.1.early ≡ some result) × (result.status_code ≡ code))

-- Both entries forward the body as it is, and leave the engine so.
abbrev pub PassedOn :
    {S : Type 0} → Engine S → Request → Engine S × Begun → Engine S × StreamPlan → Type 0
PassedOn engine request handled streamed =
    (handled.0 ≡ engine)
    × (streamed.0 ≡ engine)
    × ((out : UpstreamRequest) × (p : Pending) × (handled.1 ≡ forwarded out p)
        × (out.content ≡ request.body))
    × ((streamed.1.early ≡ none) × (streamed.1.out_body ≡ request.body))

module _ {S : Type 0} (ext : Externals) (ports : Ports S) (config : EngineConfig)
    (policy : CachePolicy) where
  dispatch-refuses :
      (ticks : ℕ) (engine : Engine S) (now : ℕ) (dialect : Dialect) (url tenant : Text)
      (request : Request) (admission : Admission) (code : ℕ)
      → status admission ≡ some code
      → BothRefuse code engine
          (dispatch ext ports config policy ticks engine now dialect tenant request admission)
          (dispatch_stream ext ports config ticks engine now dialect url tenant request admission)
  unfolding dispatch dispatch_stream status shed
  dispatch-refuses ticks engine now dialect url tenant request unrouted code h =
      (refl, refl, (_, refl, ground arith), (_, refl, ground arith))
  dispatch-refuses ticks engine now dialect url tenant request unauthorized code h =
      (refl, refl, (_, refl, ground arith), (_, refl, ground arith))
  dispatch-refuses ticks engine now dialect url tenant request (limited wait) code h =
      (refl, refl, (_, refl, ground arith), (_, refl, ground arith))
  dispatch-refuses ticks engine now dialect url tenant request (admitted base t) code h =
      absurd (ground arith)

  -- A request that the guards refuse is refused by both entries with the same status, 401, 429 or
  -- 502, and neither touches memory, compressor, caches or the set of prefixes: of the engine's
  -- state only the buckets change, as the rate limiter changed them.
  pub begin-refuses :
      (ticks : ℕ) (limiter : Option RateLimit) (engine : Engine S) (now : ℕ) (request : Request)
      (code : ℕ)
      → status
          (admit ext.lower ext.sha256_hex config limiter now
            (detect request.path)
            request.headers
            engine.buckets).1
        ≡ some code
      → BothRefuse code
          (record engine {
            buckets =
                (admit ext.lower ext.sha256_hex config limiter now
                  (detect request.path)
                  request.headers
                  engine.buckets).0;
          })
          (begin ext ports config policy ticks limiter engine now request)
          (prepare_stream ext ports config ticks limiter engine now (detect request.path) request)
  unfolding begin prepare_stream
  begin-refuses ticks limiter engine now request code h =
      let r =
        admit ext.lower ext.sha256_hex config limiter now (detect request.path) request.headers
          engine.buckets in
      dispatch-refuses ticks (record engine { buckets = r.0 }) now (detect request.path)
        (routed_url ext ports config (detect request.path) request)
        (tenant_of ext.lower ext.sha256_hex config request.headers) request r.1 code h

  dispatch-passes :
      (ticks : ℕ) (engine : Engine S) (now : ℕ) (dialect : Dialect) (url tenant : Text)
      (request : Request) (admission : Admission) (base t : Text)
      → admission ≡ admitted base t
      → canonicalize ext config dialect request.body request.path ≡ none
      → PassedOn engine request
          (dispatch ext ports config policy ticks engine now dialect tenant request admission)
          (dispatch_stream ext ports config ticks engine now dialect url tenant request admission)
  unfolding dispatch dispatch_stream process proceed plan upstream_to
  dispatch-passes ticks engine now dialect url tenant request admission base t e c =
      rw (e, dispatch, dispatch_stream)
        (rw (c, process, plan) (refl, refl, (_, _, refl, refl), (refl, refl)))

  -- A body that cannot be read as a request of its dialect is forwarded byte for byte, by both
  -- entries, and nothing else happens: memory, compressor, caches and the set of prefixes stay as
  -- they are.
  pub begin-passes :
      (ticks : ℕ) (limiter : Option RateLimit) (engine : Engine S) (now : ℕ) (request : Request)
      (base tenant : Text)
      → (admit ext.lower ext.sha256_hex config limiter now
          (detect request.path)
          request.headers
          engine.buckets).1
        ≡ admitted base tenant
      → canonicalize ext config (detect request.path) request.body request.path ≡ none
      → PassedOn
          (record engine {
            buckets =
                (admit ext.lower ext.sha256_hex config limiter now
                  (detect request.path)
                  request.headers
                  engine.buckets).0;
          })
          request
          (begin ext ports config policy ticks limiter engine now request)
          (prepare_stream ext ports config ticks limiter engine now (detect request.path) request)
  unfolding begin prepare_stream
  begin-passes ticks limiter engine now request base tenant e c =
      let r =
        admit ext.lower ext.sha256_hex config limiter now (detect request.path) request.headers
          engine.buckets in
      dispatch-passes ticks (record engine { buckets = r.0 }) now (detect request.path)
        (routed_url ext ports config (detect request.path) request)
        (tenant_of ext.lower ext.sha256_hex config request.headers) request r.1 base tenant e c

module _ {S : Type 0} (ext : Externals) (ports : Ports S) (config : EngineConfig) where
  -- `prepare_stream` has nothing to do with the caches: whatever the response cache and the similarity
  -- cache do, the plan and the engine's state are the same.
  pub prepare_stream-uncached :
      (get : S → ℕ → Text → Text → S × Option (Option CachedResponse))
      (put : S → ℕ → Text → CachedResponse → ℕ → Text → S) (has : Bool)
      (similar : S → Text → Value → Text → Option (Option Text))
      (remember : S → Text → Text → Value → Text → S) (ticks : ℕ) (limiter : Option RateLimit)
      (engine : Engine S) (now : ℕ) (dialect : Dialect) (request : Request)
      → prepare_stream ext
          (record ports {
            cache_get = get;
            cache_put = put;
            has_similarity = has;
            similar = similar;
            remember = remember;
          })
          config
          ticks
          limiter
          engine
          now
          dialect
          request
        ≡ prepare_stream ext ports config ticks limiter engine now dialect request
  unfolding prepare_stream dispatch_stream plan compress_request apply_memory measure
  prepare_stream-uncached get put has similar remember ticks limiter engine now dialect request =
      refl
