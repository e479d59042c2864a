-- ===== src/Proxy/Engine/Finish.antt =====
-- proxy/engine.py, `_handle` from the upstream's answer on.
use parcus.Prelude.{ℕ, not, Option, none, some, if◌then◌else◌}
use parcus.Text.{Text}
use parcus.Model.{request_text, CachedResponse}
use parcus.Proxy.Usage.{ProviderUsage, parse_usage}
use parcus.Proxy.Engine.{EngineConfig, response_headers, content_type}
use parcus.Proxy.Engine.Ports.{Ports, Externals, Engine}
use parcus.Proxy.Engine.Result.{ProxyResult, UpstreamResponse, Pending, is_success}

-- `CachedResponse` of an answer.
unfoldable pub cached : Externals → UpstreamResponse → CachedResponse
unfolding content_type
cached ext response = record {
  status_code = response.status_code;
  body = response.content;
  content_type = content_type ext.lower response.headers;
}

module _ {S : Type 0} (ext : Externals) (ports : Ports S) (config : EngineConfig) where
  -- `_store`
  unfoldable pub store : S → ℕ → Text → UpstreamResponse → Text → S
  unfolding cached
  store s now key response tenant =
      ports.cache_put s now key (cached ext response) config.cache_ttl_seconds tenant

  -- The caches are written after a success, if the request has a key.
  unfoldable pub keep : S → ℕ → Pending → UpstreamResponse → S
  unfolding store request_text
  keep s now pending response = elim pending.cache_key [
    | none ↦ s
    | some key ↦
        let stored = store s now key response pending.tenant in
        if not (is_success response.status_code)
        then s
        else if not ports.has_similarity
        then stored
        else elim pending.canonical [
          | none ↦ stored
          | some r ↦ ports.remember stored (request_text r) key r.model pending.tenant
        ]
  ]

  -- The usage that a success reports; none where `parse_usage` raises.
  unfoldable pub usage_reported : Pending → UpstreamResponse → Option (Option ProviderUsage)
  unfolding parse_usage
  usage_reported pending response =
      if is_success response.status_code
      then parse_usage ext.loads ext.int_of pending.dialect response.content
      else some none

  -- `_handle` from the upstream's answer on; none where it raises.
  unfoldable pub finish : Engine S → ℕ → Pending → UpstreamResponse → Engine S × Option ProxyResult
  unfolding keep usage_reported response_headers
  finish engine now pending response = (
    record engine { ports = keep engine.ports now pending response },
    elim (usage_reported pending response) [
      | none ↦ none
      | some usage ↦ some (record {
        status_code = response.status_code;
        headers = response_headers ext.lower response.headers;
        content = response.content;
        meta = record pending.meta { upstream_usage = usage };
      })
    ],
  )
