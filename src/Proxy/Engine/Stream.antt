-- ===== src/Proxy/Engine/Stream.antt =====
-- proxy/engine.py, `prepare_stream`: a streaming request passes the same guards and is compressed, and
-- never asks the response cache. The caller forwards the body and streams the answer back.
use parcus.Prelude.{ℕ, Option, none, some, []}
use parcus.Text.{Text}
use parcus.Model.{Dialect}
use parcus.Quota.{RateLimit}
use parcus.Tenant.{Headers}
use parcus.Proxy.Engine.{EngineConfig, route, forward_headers}
use parcus.Proxy.Engine.Admit.{
  Admission, unrouted, unauthorized, limited, admitted, tenant_of, admit,
}
use parcus.Proxy.Engine.Ports.{Bytes, Ports, Externals, Engine}
use parcus.Proxy.Engine.Memory.{apply_memory}
use parcus.Proxy.Engine.Outbound.{canonicalize, compress_request}
use parcus.Proxy.Engine.Result.{
  stream_bypass, Meta, bare_meta, ProxyResult, Request, upstream_url, unroutable, denied, shed,
}
use parcus.Proxy.Engine.Handle.{measure}

-- `StreamPlan`
pub record StreamPlan : Type 0 where
  pub early : Option ProxyResult
  pub url : Text
  pub out_body : Bytes
  pub forward_headers : Headers
  pub meta : Meta

abbrev stopped : ProxyResult → Text → Bytes → Meta → StreamPlan
stopped result url body meta = record {
  early = some result;
  url = url;
  out_body = body;
  forward_headers = [];
  meta = meta;
}

module _ {S : Type 0} (ext : Externals) (ports : Ports S) (config : EngineConfig) where
  -- The plan of an admitted request.
  unfoldable pub plan : Engine S → ℕ → Dialect → Text → Text → Request → Engine S × StreamPlan
  unfolding canonicalize apply_memory compress_request measure forward_headers
  plan engine now dialect url tenant request =
      let meta = bare_meta dialect stream_bypass tenant in
      let headers = parcus.Proxy.Engine.forward_headers ext.lower request.headers in
      elim (canonicalize ext config dialect request.body request.path) [
        | none ↦ (
          engine,
          record {
            early = none;
            url = url;
            out_body = request.body;
            forward_headers = headers;
            meta = meta;
          },
        )
        | some canonical ↦
            let (s1, working, action) =
              apply_memory ext ports config engine.ports canonical tenant in
            let (seen, s2, out) =
              compress_request ext ports config engine.seen s1 now working request.body tenant in
            (
              record engine { seen = seen; ports = s2 },
              record {
                early = none;
                url = url;
                out_body = out.body;
                forward_headers = headers;
                meta = record meta { measured = some (measure ext canonical working action out) };
              },
            )
      ]

  unfoldable pub dispatch_stream :
      ℕ → Engine S → ℕ → Dialect → Text → Text → Request → Admission → Engine S × StreamPlan
  unfolding plan shed
  dispatch_stream ticks engine now dialect url tenant request unrouted =
      let meta = bare_meta dialect stream_bypass [] in
      (engine, stopped (unroutable meta) [] request.body meta)
  dispatch_stream ticks engine now dialect url tenant request unauthorized =
      let meta = bare_meta dialect stream_bypass tenant in
      (engine, stopped (denied dialect stream_bypass tenant) url request.body meta)
  dispatch_stream ticks engine now dialect url tenant request (limited wait) =
      let meta = bare_meta dialect stream_bypass tenant in
      (engine, stopped (shed ticks dialect stream_bypass tenant wait) url request.body meta)
  dispatch_stream ticks engine now dialect url tenant request (admitted base t) =
      plan engine now dialect url t request

  unfoldable pub routed_url : Dialect → Request → Text
  unfolding route upstream_url
  routed_url dialect request = elim (route ext.lower config dialect request.headers) [
    | none ↦ []
    | some base ↦ upstream_url base request.path request.query
  ]

  -- `prepare_stream`
  unfoldable pub prepare_stream :
      ℕ → Option RateLimit → Engine S → ℕ → Dialect → Request → Engine S × StreamPlan
  unfolding admit dispatch_stream tenant_of routed_url
  prepare_stream ticks limiter engine now dialect request =
      let (buckets, admission) =
        admit ext.lower ext.sha256_hex config limiter now dialect request.headers engine.buckets in
      let tenant = tenant_of ext.lower ext.sha256_hex config request.headers in
      dispatch_stream ticks (record engine { buckets = buckets }) now dialect
        (routed_url dialect request) tenant request admission
