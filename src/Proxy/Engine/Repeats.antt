-- ===== src/Proxy/Engine/Repeats.antt =====
-- proxy/engine.py: a request that comes again while its answer is in the cache.
use mathlib.Core.Path.{subst}
use parcus.Prelude.{
  ℕ, ◌+◌, ◌*◌, ◌<◌, ◌≡◌, refl, ap, sym, ◌∙◌, true, false, Option, some, Bool-cases, Option-cases,
  inl, inr, arith,
}
use parcus.Text.{Text}
use parcus.Json.{Value}
use parcus.Model.{Dialect, CanonicalRequest, CachedResponse}
use parcus.Proxy.Usage.{as_dict}
use parcus.Quota.{RateLimit}
use parcus.Cache.Policy.{CachePolicy}
use parcus.Cache.Seen.{PrefixSeenSet}
use parcus.Proxy.Dialects.Parse.{detect}
use parcus.Proxy.Engine.{EngineConfig, maybe_cache_key}
use parcus.Proxy.Engine.Admit.{Admission, admitted, tenant_of, admit, admit-admitted}
use parcus.Proxy.Engine.Ports.{Bytes, Ports, Externals, Engine}
use parcus.Proxy.Engine.Memory.{memory_off, apply_memory}
use parcus.Proxy.Engine.Outbound.{canonicalize, compress_request}
use parcus.Proxy.Engine.Result.{
  cache_hit, Request, Meta, ProxyResult, UpstreamRequest, UpstreamResponse, Pending, Begun, replied,
  forwarded, upstream_url, from_cache, is_success,
}
use parcus.Proxy.Engine.Handle.{
  measure, measured_meta, upstream_to, awaiting, key_of, consult, with_key, optimize, proceed,
  process, dispatch, begin,
}
use parcus.Proxy.Engine.Finish.{cached, store, keep, finish}
use parcus.Proxy.Engine.Forwarding.{Sent, begin-forwarded}

-- What the engine relies on of its ports: where the cache works for a tenant (its database answers, and
-- the tenant's key is not withheld), an answer that was put with a time to live above 0 is found until
-- this is over; and the compressor and the similarity cache leave the answers alone.
pub record IsCaching {S : Type 0} (ports : Ports S) (ticks : ℕ) (Works : S → Text → Type 0)
    : Type 0 where
  pub found :
      (s : S) (now later : ℕ) (key : Text) (response : CachedResponse) (ttl : ℕ) (tenant : Text)
      → Works s tenant
      → 0 < ttl
      → later < now + ttl * ticks
      → (ports.cache_get (ports.cache_put s now key response ttl tenant) later key tenant).1
        ≡ some (some response)
  pub past_compress :
      (s : S) (r : CanonicalRequest) (now : ℕ) (key tenant : Text)
      → (ports.cache_get (ports.compress s r).0 now key tenant).1
        ≡ (ports.cache_get s now key tenant).1
  pub past_remember :
      (s : S) (text k : Text) (model : Value) (t : Text) (now : ℕ) (key tenant : Text)
      → (ports.cache_get (ports.remember s text k model t) now key tenant).1
        ≡ (ports.cache_get s now key tenant).1

-- A reply with the answer of a cache.
abbrev pub RepliesWith : UpstreamResponse → Begun → Type 0
RepliesWith response begun =
    (result : ProxyResult) × (begun ≡ replied result)
    × (result.status_code ≡ response.status_code)
    × (result.content ≡ response.content)
    × (result.meta.cache ≡ cache_hit)

module _ {S : Type 0} (ext : Externals) (ports : Ports S) (config : EngineConfig)
    (policy : CachePolicy) (ticks : ℕ) (Works : S → Text → Type 0)
    (caching : IsCaching ports ticks Works) where
  keep-found :
      (s : S) (now later : ℕ) (pending : Pending) (response : UpstreamResponse) (key : Text)
      → is_success response.status_code ≡ true
      → pending.cache_key ≡ some key
      → Works s pending.tenant
      → 0 < config.cache_ttl_seconds
      → later < now + config.cache_ttl_seconds * ticks
      → (ports.cache_get (keep ext ports config s now pending response) later key pending.tenant).1
        ≡ some (some (cached ext response))
  unfolding keep store
  keep-found s now later pending response key ok k works lives before =
      let put =
        caching.found s now later key (cached ext response) config.cache_ttl_seconds pending.tenant
          works lives before in
      elim (Bool-cases ports.has_similarity) [
        | inr off ↦ rw (k, keep) (rw (ok, keep) (rw (off, keep) put))
        | inl on ↦ elim (Option-cases pending.canonical) [
          | inl c ↦ rw (k, keep) (rw (ok, keep) (rw (on, keep) (rw (c, keep) put)))
          | inr (r, c) ↦
              rw (k, keep)
                (rw (ok, keep)
                  (rw (on, keep)
                    (rw (c, keep)
                      (caching.past_remember _ _ _ _ _ later key pending.tenant ∙ put))))
        ]
      ]

  compress_request-found :
      (seen : PrefixSeenSet) (s : S) (now later : ℕ) (working : CanonicalRequest) (original : Bytes)
      (t key tenant : Text)
      → (ports.cache_get
          (compress_request ext ports config seen s now working original t).1
          later
          key
          tenant).1
        ≡ (ports.cache_get s later key tenant).1
  unfolding compress_request
  compress_request-found seen s now later working original t key tenant =
      elim (Option-cases (as_dict (ext.loads original))) [
        | inl e ↦ rw (e, compress_request) refl
        | inr (decoded, e) ↦ elim (Option-cases (ports.compress s working).1) [
          | inl c ↦
              rw (e, compress_request)
                (rw (c, compress_request) (caching.past_compress s working later key tenant))
          | inr (result, c) ↦
              rw (e, compress_request)
                (rw (c, compress_request) (caching.past_compress s working later key tenant))
        ]
      ]

  consult-hit :
      (engine : Engine S) (now : ℕ) (key : Text) (meta : Meta) (r : CanonicalRequest)
      (tenant : Text) (out : UpstreamRequest) (pending : Pending) (response : UpstreamResponse)
      → (ports.cache_get engine.ports now key tenant).1 ≡ some (some (cached ext response))
      → RepliesWith response
          (consult ext ports config policy engine now key meta r tenant out pending).1
  unfolding consult from_cache cached
  consult-hit engine now key meta r tenant out pending response h =
      rw (h, consult) (_, refl, refl, refl, refl)

  apply_memory-off :
      (s : S) (r : CanonicalRequest) (tenant : Text)
      → config.memory_enabled ≡ false
      → apply_memory ext ports config s r tenant ≡ (s, r, memory_off)
  unfolding apply_memory
  apply_memory-off s r tenant off = rw (off, apply_memory) refl

  optimize-hit :
      (engine : Engine S) (now : ℕ) (dialect : Dialect) (url tenant : Text) (request : Request)
      (r : CanonicalRequest) (key : Text) (response : UpstreamResponse)
      → config.memory_enabled ≡ false
      → maybe_cache_key ext.sha256_hex config policy ext.has_secret r tenant ≡ some key
      → (ports.cache_get engine.ports now key tenant).1 ≡ some (some (cached ext response))
      → RepliesWith response
          (optimize ext ports config policy engine now dialect url tenant request r).1
  unfolding optimize key_of with_key
  optimize-hit engine now dialect url tenant request r key response off k h =
      let (seen, s2, o) =
        compress_request ext ports config engine.seen engine.ports now r request.body tenant in
      let meta = measured_meta dialect tenant (measure ext r r memory_off o) in
      rw (apply_memory-off engine.ports r tenant off) (
        rw k (
          consult-hit (record engine { seen = seen; ports = s2 }) now key meta r tenant
            (upstream_to ext url request o.body) (awaiting (some r) meta) response
            (compress_request-found engine.seen engine.ports now now r request.body tenant key
                tenant
              ∙ h)))

  dispatch-hit :
      (engine : Engine S) (now : ℕ) (dialect : Dialect) (tenant t base : Text) (request : Request)
      (admission : Admission) (r : CanonicalRequest) (key : Text) (response : UpstreamResponse)
      → config.memory_enabled ≡ false
      → admission ≡ admitted base t
      → canonicalize ext config dialect request.body request.path ≡ some r
      → maybe_cache_key ext.sha256_hex config policy ext.has_secret r t ≡ some key
      → (ports.cache_get engine.ports now key t).1 ≡ some (some (cached ext response))
      → RepliesWith response
          (dispatch ext ports config policy ticks engine now dialect tenant request admission).1
  unfolding dispatch process proceed
  dispatch-hit engine now dialect tenant t base request admission r key response off a c k h =
      rw (a, dispatch)
        (rw (c, process)
          (optimize-hit engine now dialect (upstream_url base request.path request.query) t request
            r key response off k h))

  keyed :
      (dialect : Dialect) (base tenant key : Text) (request : Request) (out : UpstreamRequest)
      (p : Pending)
      → Sent ext ports config policy dialect base tenant request out p
      → p.cache_key ≡ some key
      → (r : CanonicalRequest) × (canonicalize ext config dialect request.body request.path
          ≡ some r)
        × (maybe_cache_key ext.sha256_hex config policy ext.has_secret r tenant ≡ some key)
  keyed dialect base tenant key request out p sent k = elim sent.under_key [
    | inl absent ↦ absurd (ground arith)
    | inr (r, c, same) ↦ (r, c, sym same ∙ k)
  ]

  -- With the memory off, and a cache that works for the tenant and keeps answers for more than no time,
  -- a request that was forwarded under a key and answered with success is answered from the cache when
  -- it comes again in time and passes the guards, whatever became of the buckets and of the set of
  -- prefixes meanwhile: with the same status and content, and without a call of the upstream.
  pub begin-finish :
      (limiter : Option RateLimit) (engine e again : Engine S) (now answered later : ℕ)
      (request : Request) (out : UpstreamRequest) (pending : Pending) (response : UpstreamResponse)
      (key base tenant : Text)
      → config.memory_enabled ≡ false
      → begin ext ports config policy ticks limiter engine now request ≡ (e, forwarded out pending)
      → pending.cache_key ≡ some key
      → is_success response.status_code ≡ true
      → Works e.ports pending.tenant
      → 0 < config.cache_ttl_seconds
      → again.ports ≡ (finish ext ports config e answered pending response).0.ports
      → later < answered + config.cache_ttl_seconds * ticks
      → (admit ext.lower ext.sha256_hex config limiter later
          (detect request.path)
          request.headers
          again.buckets).1
        ≡ admitted base tenant
      → RepliesWith response (begin ext ports config policy ticks limiter again later request).1
  unfolding begin finish
  begin-finish limiter engine e again now answered later request out pending response key base
        tenant off begun k ok works lives same before passed =
      let own = tenant_of ext.lower ext.sha256_hex config request.headers in
      let (first, _, _, _, sent) =
        begin-forwarded ext ports config policy ticks limiter engine e now request out pending
          begun in
      let (r, c, kept) = keyed (detect request.path) first own key request out pending sent k in
      let found = keep-found e.ports answered later pending response key ok k works lives before in
      let decided =
        admit ext.lower ext.sha256_hex config limiter later (detect request.path) request.headers
          again.buckets in
      let (_, is_own, _, _) =
        admit-admitted ext.lower ext.sha256_hex config limiter later (detect request.path)
          request.headers again.buckets decided.0 base tenant (ap (λ a. (decided.0, a)) passed) in
      dispatch-hit (record again { buckets = decided.0 }) later (detect request.path) own tenant
        base request decided.1 r key response off passed c
        (subst (λ t. maybe_cache_key ext.sha256_hex config policy ext.has_secret r t ≡ some key)
          (sym is_own) kept)
        (subst
          (λ t. (ports.cache_get again.ports later key t).1 ≡ some (some (cached ext response)))
          (sent.for_tenant ∙ sym is_own) (rw same found))
