-- ===== src/Proxy/Engine/Result.antt =====
-- proxy/engine.py: what `_handle` is given, what it sends, and what it answers.
use parcus.Prelude.{
  true, false, ℕ, ◌+◌, ◌-◌, ◌/◌, Bool, ◌&&◌, Option, none, some, List, [], ◌∷◌, ◌++◌, is_empty, leb,
  ltb, nat_eq, list_eq, ◌==◌, if◌then◌else◌,
}
use parcus.Text.{Text, codes, drop_while_end}
use parcus.Text.Decimal.{decimal}
use parcus.Model.{Dialect, unknown, CanonicalRequest, CachedResponse}
use parcus.Tenant.{Headers}
use parcus.Proxy.Usage.{ProviderUsage}
use parcus.Proxy.Engine.Ports.{Bytes}
use parcus.Proxy.Engine.Memory.{MemoryAction}
use parcus.Proxy.Engine.Outbound.{StageStat}

pub data CacheOutcome : Type 0 where
  cache_off cache_miss cache_hit cache_similar stream_bypass : CacheOutcome

-- What was measured of a request that was canonicalized.
pub record Measured : Type 0 where
  pub tokens_before : ℕ
  pub tokens_after : ℕ
  pub memory : MemoryAction
  pub inject : Bool
  pub stages : List StageStat

-- `meta`: content-free attributes of the answer.
pub record Meta : Type 0 where
  -- The buffered answer without a route has neither `dialect` nor `cache` among its attributes.
  pub labelled : Bool
  pub dialect : Dialect
  pub cache : CacheOutcome
  pub tenant : Text
  pub measured : Option Measured
  pub upstream_usage : Option ProviderUsage

pub record ProxyResult : Type 0 where
  pub status_code : ℕ
  pub headers : Headers
  pub content : Bytes
  pub meta : Meta

pub record Request : Type 0 where
  pub method : Text
  pub path : Text
  pub headers : Headers
  pub body : Bytes
  pub query : Text

pub record UpstreamRequest : Type 0 where
  pub method : Text
  pub url : Text
  pub headers : Headers
  pub content : Bytes

pub record UpstreamResponse : Type 0 where
  pub status_code : ℕ
  pub headers : Headers
  pub content : Bytes

-- What a call that awaits its answer still needs.
pub record Pending : Type 0 where
  pub dialect : Dialect
  pub tenant : Text
  pub canonical : Option CanonicalRequest
  pub cache_key : Option Text
  pub meta : Meta

-- The first step ends with an answer, or with a request to the upstream.
pub data Begun : Type 0 where
  replied : ProxyResult → Begun
  forwarded : UpstreamRequest → Pending → Begun

-- `_upstream_url`
unfoldable pub upstream_url : Text → Text → Text → Text
unfolding drop_while_end
upstream_url base path query =
    let url = drop_while_end (λ c. c == 47) base ++ path in
    if is_empty query then url else url ++ (63 ∷ query)

abbrev json_headers : Headers
json_headers = (codes "content-type", codes "application/json") ∷ []

abbrev pub bare_meta : Dialect → CacheOutcome → Text → Meta
bare_meta dialect cache tenant = record {
  labelled = true;
  dialect = dialect;
  cache = cache;
  tenant = tenant;
  measured = none;
  upstream_usage = none;
}

-- `str(math.ceil(seconds))`, for a time in ticks.
unfoldable pub retry_seconds : ℕ → ℕ → Text
unfolding decimal
retry_seconds ticks wait = decimal ((wait + ticks - 1) / ticks)

abbrev pub unlabelled : Meta
unlabelled = record (bare_meta unknown cache_off []) { labelled = false }

-- The early answers: without a route, to a tenant that is not authorized, and over the rate.
abbrev pub unroutable : Meta → ProxyResult
unroutable meta = record {
  status_code = 502;
  headers = json_headers;
  content = codes "{\"error\":\"parcus: unable to route request to a provider\"}";
  meta = meta;
}

abbrev pub denied : Dialect → CacheOutcome → Text → ProxyResult
denied dialect cache tenant = record {
  status_code = 401;
  headers = json_headers;
  content = codes "{\"error\":\"parcus: tenant not authorized\"}";
  meta = bare_meta dialect cache tenant;
}

unfoldable pub shed : ℕ → Dialect → CacheOutcome → Text → ℕ → ProxyResult
unfolding retry_seconds
shed ticks dialect cache tenant wait = record {
  status_code = 429;
  headers = json_headers ++ (codes "retry-after", retry_seconds ticks wait) ∷ [];
  content = codes "{\"error\":\"parcus: rate limit exceeded\"}";
  meta = bare_meta dialect cache tenant;
}

abbrev value_or : Text → Option Text → Text
value_or t none = t
value_or t (some []) = t
value_or t (some (c ∷ s)) = c ∷ s

-- `_from_cache`
unfoldable pub from_cache : CacheOutcome → Meta → CachedResponse → ProxyResult
from_cache outcome meta hit = record {
  status_code = hit.status_code;
  headers = (codes "content-type", value_or (codes "application/json") hit.content_type) ∷ [];
  content = hit.body;
  meta = record meta { cache = outcome };
}

-- `response.status_code` of a success
abbrev pub is_success : ℕ → Bool
is_success status = leb 200 status && ltb status 300
