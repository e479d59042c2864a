-- ===== src/Proxy/Server/Guards.antt =====
-- proxy/app.py: the guards of the engine stand before every call of an upstream, buffered or relayed.
use mathlib.Core.Path.{subst}
use parcus.Prelude.{
  sym, ℕ, ◌≡◌, refl, ap, ◌∙◌, Bool, true, false, Option, none, some, arith, Option-cases, inl, inr,
  nat_eq, list_eq,
}
use parcus.Proxy.Engine.Result.{
  Pending, Request, UpstreamRequest, Begun, replied, forwarded, upstream_url,
}
use parcus.Text.{Text}
use parcus.Model.{Dialect}
use parcus.Cache.Policy.{CachePolicy}
use parcus.Quota.{RateLimit}
use parcus.Tenant.{is_authorized}
use parcus.Proxy.Dialects.Parse.{detect}
use parcus.Proxy.Engine.{EngineConfig, route, forward_headers}
use parcus.Proxy.Engine.Admit.{
  Admission, unrouted, unauthorized, limited, admitted, status, tenant_of, admit, rate_allows,
  admit-admitted,
}
use parcus.Proxy.Engine.Ports.{Ports, Externals, Engine}
use parcus.Proxy.Engine.Outbound.{canonicalize}
use parcus.Proxy.Engine.Handle.{begin}
use parcus.Proxy.Engine.Stream.{StreamPlan, plan, dispatch_stream, routed_url, prepare_stream}
use parcus.Proxy.Engine.Refusing.{begin-refuses}
use parcus.Proxy.Engine.Forwarding.{Strips, forward_headers-Strips, begin-forwarded}
use parcus.Proxy.Server.{
  Framework, Response, Served, answered, relays, buffers, page_of, is_stream, relay, reply,
  result_to_response, pass_on, serve,
}

abbrev pub outgoing : Served → Option UpstreamRequest
outgoing (relays out meta) = some out
outgoing (buffers out pending) = some out
outgoing _ = none

module _ {S : Type 0} (web : Framework) (ext : Externals) (ports : Ports S) (config : EngineConfig)
    (policy : CachePolicy) (ticks : ℕ) (limiter : Option RateLimit) where
  abbrev admission_of : Engine S → ℕ → Request → Admission
  unfolding admit detect
  admission_of engine now request =
      (admit ext.lower ext.sha256_hex config limiter now (detect request.path) request.headers
        engine.buckets).1

  -- The request may go to `base`.
  abbrev pub IsAllowed : Engine S → ℕ → Request → Text → Type 0
  IsAllowed engine now request base =
      (route ext.lower config (detect request.path) request.headers ≡ some base)
      × (is_authorized (tenant_of ext.lower ext.sha256_hex config request.headers)
            config.allowed_tenants
          ≡ true)
      × (rate_allows limiter now (tenant_of ext.lower ext.sha256_hex config request.headers)
            engine.buckets
          ≡ true)

  pass_on-refuses :
      (streaming : Bool) (engine : Engine S) (now : ℕ) (request : Request) (code : ℕ)
      → status
          (admit ext.lower ext.sha256_hex config limiter now
            (detect request.path)
            request.headers
            engine.buckets).1
        ≡ some code
      → ((pass_on web ext ports config policy ticks limiter streaming engine now request).0
          ≡ record engine {
            buckets =
                (admit ext.lower ext.sha256_hex config limiter now
                  (detect request.path)
                  request.headers
                  engine.buckets).0;
          })
        × ((response : Response) × ((pass_on web ext ports config policy ticks limiter streaming
                engine now request).1
              ≡ answered response)
            × (response.status_code ≡ code))
  unfolding pass_on result_to_response
  pass_on-refuses true engine now request code h =
      let (_, kept, _, (result, early, is)) =
        begin-refuses ext ports config policy ticks limiter engine now request code h in
      (kept, (result_to_response web result, rw (early, relay) refl, is))
  pass_on-refuses false engine now request code h =
      let (kept, _, (result, replies, is), _) =
        begin-refuses ext ports config policy ticks limiter engine now request code h in
      (kept, (result_to_response web result, rw (replies, reply) refl, is))

  dispatch_stream-passes :
      (engine : Engine S) (now : ℕ) (dialect : Dialect) (url tenant : Text) (request : Request)
      (admission : Admission)
      → (dispatch_stream ext ports config ticks engine now dialect url tenant request
          admission).1.early
        ≡ none
      → (base : Text) × (t : Text) × (admission ≡ admitted base t)
        × ((dispatch_stream ext ports config ticks engine now dialect url tenant request
              admission).1.url
            ≡ url)
        × ((dispatch_stream ext ports config ticks engine now dialect url tenant request
              admission).1.forward_headers
            ≡ forward_headers ext.lower request.headers)
  unfolding dispatch_stream plan
  dispatch_stream-passes engine now dialect url tenant request unrouted h = absurd (ground arith)
  dispatch_stream-passes engine now dialect url tenant request unauthorized h =
      absurd (ground arith)
  dispatch_stream-passes engine now dialect url tenant request (limited wait) h =
      absurd (ground arith)
  dispatch_stream-passes engine now dialect url tenant request (admitted base t) h =
      elim (Option-cases (canonicalize ext config dialect request.body request.path)) [
        | inl e ↦ (base, t, refl, rw (e, plan) refl, rw (e, plan) refl)
        | inr (r, e) ↦ (base, t, refl, rw (e, plan) refl, rw (e, plan) refl)
      ]

  relay-sends :
      (request : Request) (planned : StreamPlan) (out : UpstreamRequest)
      → outgoing (relay web ext ports config policy ticks limiter request planned) ≡ some out
      → (planned.early ≡ none) × (out.url ≡ planned.url) × (out.headers ≡ planned.forward_headers)
  unfolding relay
  relay-sends request planned out h = elim (Option-cases planned.early) [
    | inl e ↦ (e, ground arith, ground arith)
    | inr (r, e) ↦ absurd (ground arith)
  ]

  reply-sends :
      (begun : Begun) (out : UpstreamRequest)
      → outgoing (reply web ext ports config policy ticks limiter begun) ≡ some out
      → (p : Pending) × (begun ≡ forwarded out p)
  unfolding reply
  reply-sends (replied result) out h = absurd (ground arith)
  reply-sends (forwarded sent p) out h = (p, ground arith)

  routed_url-route :
      (request : Request) (base : Text)
      → route ext.lower config (detect request.path) request.headers ≡ some base
      → routed_url ext ports config (detect request.path) request
        ≡ upstream_url base request.path request.query
  unfolding routed_url
  routed_url-route request base e = rw (e, routed_url) refl

  pass_on-sends :
      (streaming : Bool) (engine : Engine S) (now : ℕ) (request : Request) (out : UpstreamRequest)
      → outgoing (pass_on web ext ports config policy ticks limiter streaming engine now request).1
        ≡ some out
      → (base : Text) × IsAllowed engine now request base
        × (out.url ≡ upstream_url base request.path request.query)
        × (out.headers ≡ forward_headers ext.lower request.headers)
  unfolding pass_on prepare_stream
  pass_on-sends true engine now request out h =
      let dialect = detect request.path in
      let tenant = tenant_of ext.lower ext.sha256_hex config request.headers in
      let r =
        admit ext.lower ext.sha256_hex config limiter now dialect request.headers engine.buckets in
      let (early, u, w) =
        relay-sends request
          (prepare_stream ext ports config ticks limiter engine now dialect request).1 out h in
      let (base, t, is, url, headers) =
        dispatch_stream-passes (record engine { buckets = r.0 }) now dialect
          (routed_url ext ports config dialect request) tenant request r.1 early in
      let (routed, own, authorized, allowed) =
        admit-admitted ext.lower ext.sha256_hex config limiter now dialect request.headers
          engine.buckets r.0 base t (ap (λ a. (r.0, a)) is) in
      (
        base,
        (
          routed,
          subst (λ t. is_authorized t config.allowed_tenants ≡ true) own authorized,
          subst (λ t. rate_allows limiter now t engine.buckets ≡ true) own allowed,
        ),
        u ∙ url ∙ routed_url-route request base routed,
        w ∙ headers,
      )
  pass_on-sends false engine now request out h =
      let begun = begin ext ports config policy ticks limiter engine now request in
      let (p, e) = reply-sends begun.1 out h in
      let (base, routed, authorized, allowed, sent) =
        begin-forwarded ext ports config policy ticks limiter engine begun.0 now request out p
          (ap (λ b. (begun.0, b)) e) in
      (base, (routed, authorized, allowed), sent.to_url, sent.with_headers)

  -- A request that the guards refuse is answered with their status, 401, 429 or 502, whether it
  -- streams or not, and of the state only the buckets change. The paths of the proxy's own pages are
  -- left out.
  pub serve-refuses :
      (engine : Engine S) (now : ℕ) (request : Request) (code : ℕ)
      → page_of request.path ≡ none
      → status
          (admit ext.lower ext.sha256_hex config limiter now
            (detect request.path)
            request.headers
            engine.buckets).1
        ≡ some code
      → ((serve web ext ports config policy ticks limiter engine now request).0 ≡ record engine {
        buckets =
            (admit ext.lower ext.sha256_hex config limiter now
              (detect request.path)
              request.headers
              engine.buckets).0;
      })
        × ((response : Response) × ((serve web ext ports config policy ticks limiter engine now
                request).1
              ≡ answered response)
            × (response.status_code ≡ code))
  unfolding serve
  serve-refuses engine now request code remote h =
      rw (remote, serve)
        (pass_on-refuses (is_stream ext.loads request.path request.body) engine now request code h)

  -- Whatever the server sends to an upstream, to be relayed or buffered, is no request for a page of
  -- its own, has a route, comes from a tenant that is authorized and within its rate, and goes to
  -- the URL of its path and query at the base of that route, without the hop headers.
  pub serve-sends :
      (engine : Engine S) (now : ℕ) (request : Request) (out : UpstreamRequest)
      → outgoing (serve web ext ports config policy ticks limiter engine now request).1 ≡ some out
      → (page_of request.path ≡ none)
        × ((base : Text) × IsAllowed engine now request base
            × (out.url ≡ upstream_url base request.path request.query)
            × (out.headers ≡ forward_headers ext.lower request.headers)
            × Strips ext.lower request.headers out.headers)
  unfolding serve
  serve-sends engine now request out h = elim (Option-cases (page_of request.path)) [
    | inl remote ↦
        let (base, allowed, to_url, kept) =
          pass_on-sends (is_stream ext.loads request.path request.body) engine now request out
            (rw (remote, serve) at h) in
        (
          remote,
          (
            base,
            allowed,
            to_url,
            kept,
            subst (Strips ext.lower request.headers) (sym kept)
                (forward_headers-Strips ext.lower request.headers),
          ),
        )
    | inr (local, e) ↦ absurd (ground (arith, rw (e, serve) at h))
  ]
