-- ===== src/Proxy/Engine/Forwarding.antt =====
-- proxy/engine.py: what reaches an upstream, from `_handle`.
use mathlib.Core.Path.{subst}
use parcus.Prelude.{
  false, [], ◌∷◌, true, contains, nat_eq, list_eq, ℕ, ◌≡◌, ◌⊎◌, refl, ap, sym, ◌∙◌, Option, none,
  some, Bool-cases, inl, inr, arith,
}
use parcus.Text.{Text}
use parcus.Model.{Dialect, CanonicalRequest}
use parcus.Quota.{RateLimit}
use parcus.Tenant.{Headers, is_authorized}
use parcus.Cache.Policy.{CachePolicy}
use parcus.Proxy.Dialects.Parse.{detect}
use parcus.Proxy.Engine.{
  EngineConfig, Headers, drop_request_headers, route, forward_headers, maybe_cache_key,
}
use parcus.Proxy.Engine.Admit.{
  Admission, unrouted, unauthorized, limited, admitted, tenant_of, admit, rate_allows,
  admit-admitted,
}
use parcus.Proxy.Engine.Ports.{Ports, Externals, Engine}
use parcus.Proxy.Engine.Memory.{MemoryAction, is_compacted, apply_memory}
use parcus.Proxy.Engine.Outbound.{canonicalize, compress_request}
use parcus.Proxy.Engine.Result.{
  Meta, Request, UpstreamRequest, Pending, Begun, replied, forwarded, upstream_url,
}
use parcus.Proxy.Engine.Handle.{
  consult, measured_meta, upstream_to, awaiting, key_of, measure, with_key, optimize, proceed,
  process, dispatch, begin,
}

-- The headers that are left of some: the hop headers are gone, the others stay in their order.
pub data Strips (lower : Text → Text) : Headers → Headers → Type 0 where
  done : Strips lower [] []
  drops :
      {h : Text × Text} {hs out : Headers}
      → contains (lower h.0) drop_request_headers ≡ true
      → Strips lower hs out
      → Strips lower (h ∷ hs) out
  keeps :
      {h : Text × Text} {hs out : Headers}
      → contains (lower h.0) drop_request_headers ≡ false
      → Strips lower hs out
      → Strips lower (h ∷ hs) (h ∷ out)

pub forward_headers-Strips :
    (lower : Text → Text) (hs : Headers) → Strips lower hs (forward_headers lower hs)
unfolding forward_headers
forward_headers-Strips lower [] = done
forward_headers-Strips lower (h ∷ hs) =
    elim (Bool-cases (contains (lower h.0) drop_request_headers)) [
      | inl hop ↦ rw hop (drops hop (forward_headers-Strips lower hs))
      | inr other ↦ rw other (keeps other (forward_headers-Strips lower hs))
    ]

module _ {S : Type 0} (ext : Externals) (ports : Ports S) (config : EngineConfig) where
  abbrev sent_url : Begun → Text
  sent_url (replied result) = []
  sent_url (forwarded out p) = out.url

  abbrev sent_headers : Begun → Headers
  sent_headers (replied result) = []
  sent_headers (forwarded out p) = out.headers

  abbrev tenant_pending : Begun → Text
  tenant_pending (replied result) = []
  tenant_pending (forwarded out p) = p.tenant

  abbrev key_pending : Begun → Option Text
  key_pending (replied result) = none
  key_pending (forwarded out p) = p.cache_key

  -- What a request that goes on is to its upstream.
  pub record Sent (policy : CachePolicy) (dialect : Dialect) (base tenant : Text)
      (request : Request) (out : UpstreamRequest) (pending : Pending) : Type 0 where
    pub to_url : out.url ≡ upstream_url base request.path request.query
    pub with_headers : out.headers ≡ forward_headers ext.lower request.headers
    pub no_hops : Strips ext.lower request.headers out.headers
    pub for_tenant : pending.tenant ≡ tenant
    pub under_key :
        (pending.cache_key ≡ none)
        ⊎ ((r : CanonicalRequest) × (canonicalize ext config dialect request.body request.path
              ≡ some r)
            × (pending.cache_key
                ≡ maybe_cache_key ext.sha256_hex config policy ext.has_secret r tenant))

  module _ (policy : CachePolicy) where
    consult-forwarded :
        (engine e : Engine S) (now : ℕ) (key : Text) (meta : Meta) (canonical : CanonicalRequest)
        (tenant : Text) (upstream out : UpstreamRequest) (pending p : Pending)
        → consult ext ports config policy engine now key meta canonical tenant upstream pending
          ≡ (e, forwarded out p)
        → (out ≡ upstream) × (p.tenant ≡ pending.tenant) × (p.cache_key ≡ some key)
    unfolding consult
    consult-forwarded engine e now key meta canonical tenant upstream out pending p h = ground arith

    with_key-forwarded :
        (engine e : Engine S) (now : ℕ) (key : Option Text) (meta : Meta)
        (canonical : CanonicalRequest) (tenant : Text) (upstream out : UpstreamRequest)
        (pending p : Pending)
        → with_key ext ports config policy engine now key meta canonical tenant upstream pending
          ≡ (e, forwarded out p)
        → pending.cache_key ≡ none
        → (out ≡ upstream) × (p.tenant ≡ pending.tenant) × (p.cache_key ≡ key)
    unfolding with_key
    with_key-forwarded engine e now none meta canonical tenant upstream out pending p h q =
        ground arith
    with_key-forwarded engine e now (some key) meta canonical tenant upstream out pending p h q =
        consult-forwarded engine e now key meta canonical tenant upstream out pending p h

    key_of-cases :
        (action : MemoryAction) (r : CanonicalRequest) (tenant : Text)
        → (key_of ext config policy action r tenant ≡ none)
          ⊎ (key_of ext config policy action r tenant
              ≡ maybe_cache_key ext.sha256_hex config policy ext.has_secret r tenant)
    unfolding key_of
    key_of-cases action r tenant = elim (Bool-cases (is_compacted action)) [
      | inl c ↦ inl (rw (c, key_of) refl)
      | inr c ↦ inr (rw (c, key_of) refl)
    ]

    optimize-forwarded :
        (engine e : Engine S) (now : ℕ) (dialect : Dialect) (url tenant : Text) (request : Request)
        (r : CanonicalRequest) (out : UpstreamRequest) (p : Pending)
        → optimize ext ports config policy engine now dialect url tenant request r
          ≡ (e, forwarded out p)
        → (out.url ≡ url)
          × (out.headers ≡ forward_headers ext.lower request.headers)
          × (p.tenant ≡ tenant)
          × ((p.cache_key ≡ none)
              ⊎ (p.cache_key
                  ≡ maybe_cache_key ext.sha256_hex config policy ext.has_secret r tenant))
    unfolding optimize upstream_to
    optimize-forwarded engine e now dialect url tenant request r out p h =
        let (s1, working, action) = apply_memory ext ports config engine.ports r tenant in
        let (seen, s2, o) =
          compress_request ext ports config engine.seen s1 now working request.body tenant in
        let meta = measured_meta dialect tenant (measure ext r working action o) in
        let (sent, t, k) =
          with_key-forwarded (record engine { seen = seen; ports = s2 }) e now
            (key_of ext config policy action r tenant) meta r tenant
            (upstream_to ext url request o.body) out (awaiting (some r) meta) p h refl in
        (
          ap (λ u. u.url) sent,
          ap (λ u. u.headers) sent,
          t,
          elim (key_of-cases action r tenant) [ inl c ↦ inl (k ∙ c) | inr c ↦ inr (k ∙ c) ],
        )

    proceed-forwarded :
        (engine e : Engine S) (now : ℕ) (dialect : Dialect) (base tenant : Text) (request : Request)
        (canonical : Option CanonicalRequest) (out : UpstreamRequest) (p : Pending)
        → canonicalize ext config dialect request.body request.path ≡ canonical
        → proceed ext ports config policy engine now dialect
            (upstream_url base request.path request.query)
            tenant
            request
            canonical
          ≡ (e, forwarded out p)
        → Sent policy dialect base tenant request out p
    unfolding proceed upstream_to
    proceed-forwarded engine e now dialect base tenant request none out p c h = record {
      to_url = sym (ap (λ b. sent_url b.1) h);
      with_headers = sym (ap (λ b. sent_headers b.1) h);
      no_hops =
          subst (Strips ext.lower request.headers) (ap (λ b. sent_headers b.1) h)
            (forward_headers-Strips ext.lower request.headers);
      for_tenant = sym (ap (λ b. tenant_pending b.1) h);
      under_key = inl (sym (ap (λ b. key_pending b.1) h));
    }
    proceed-forwarded engine e now dialect base tenant request (some r) out p c h =
        let (u, w, t, k) =
          optimize-forwarded engine e now dialect (upstream_url base request.path request.query)
            tenant request r out p h in
        record {
          to_url = u;
          with_headers = w;
          no_hops =
              subst (Strips ext.lower request.headers) (sym w)
                (forward_headers-Strips ext.lower request.headers);
          for_tenant = t;
          under_key = elim k [ inl q ↦ inl q | inr q ↦ inr (r, c, q) ];
        }

    dispatch-forwarded :
        (ticks : ℕ) (engine e : Engine S) (now : ℕ) (dialect : Dialect) (tenant : Text)
        (request : Request) (admission : Admission) (out : UpstreamRequest) (p : Pending)
        → dispatch ext ports config policy ticks engine now dialect tenant request admission
          ≡ (e, forwarded out p)
        → (base : Text) × (t : Text) × (admission ≡ admitted base t)
          × Sent policy dialect base t request out p
    unfolding dispatch process
    dispatch-forwarded ticks engine e now dialect tenant request unrouted out p h =
        absurd (ground arith)
    dispatch-forwarded ticks engine e now dialect tenant request unauthorized out p h =
        absurd (ground arith)
    dispatch-forwarded ticks engine e now dialect tenant request (limited wait) out p h =
        absurd (ground arith)
    dispatch-forwarded ticks engine e now dialect tenant request (admitted base t) out p h = (
      base,
      t,
      refl,
      proceed-forwarded engine e now dialect base t request
          (canonicalize ext config dialect request.body request.path) out p refl h,
    )

    -- Nothing is forwarded past the guards: if `_handle` calls an upstream, the request has a route,
    -- the tenant of its own headers is authorized and the rate limiter allows it; and it goes to the
    -- base URL of that route, without the hop headers, and, if its answer is to be cached, under the
    -- key of that tenant and of the request as it came in.
    pub begin-forwarded :
        (ticks : ℕ) (limiter : Option RateLimit) (engine e : Engine S) (now : ℕ) (request : Request)
        (out : UpstreamRequest) (p : Pending)
        → begin ext ports config policy ticks limiter engine now request ≡ (e, forwarded out p)
        → (base : Text) × (route ext.lower config (detect request.path) request.headers ≡ some base)
          × (is_authorized
                (tenant_of ext.lower ext.sha256_hex config request.headers)
                config.allowed_tenants
              ≡ true)
          × (rate_allows limiter now
                (tenant_of ext.lower ext.sha256_hex config request.headers)
                engine.buckets
              ≡ true)
          × Sent policy
              (detect request.path)
              base
              (tenant_of ext.lower ext.sha256_hex config request.headers)
              request
              out
              p
    unfolding begin
    begin-forwarded ticks limiter engine e now request out p h =
        let dialect = detect request.path in
        let r =
          admit ext.lower ext.sha256_hex config limiter now dialect request.headers
            engine.buckets in
        let (base, t, is, sent) =
          dispatch-forwarded ticks (record engine { buckets = r.0 }) e now dialect
            (tenant_of ext.lower ext.sha256_hex config request.headers) request r.1 out p h in
        let (routed, own, authorized, allowed) =
          admit-admitted ext.lower ext.sha256_hex config limiter now dialect request.headers
            engine.buckets r.0 base t (ap (λ a. (r.0, a)) is) in
        (
          base,
          routed,
          subst (λ t. is_authorized t config.allowed_tenants ≡ true) own authorized,
          subst (λ t. rate_allows limiter now t engine.buckets ≡ true) own allowed,
          subst (λ t. Sent policy dialect base t request out p) own sent,
        )
