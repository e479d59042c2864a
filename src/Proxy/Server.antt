-- ===== src/Proxy/Server.antt =====
-- proxy/app.py: the routes. A request for a page of the proxy itself is answered here; a streaming
-- request is planned by `prepare_stream` and relayed; any other goes through the engine. The web
-- framework is a parameter: what a fresh response holds, and the assignment of one header. Its check of
-- the method, and the pages that it adds itself, come before.
pub mod Headers
pub mod Guards
use parcus.Prelude.{
  ℕ, ◌-◌, Bool, true, false, Option, none, some, List, [], ◌∷◌, ◌++◌, fold, dict_of, put_pair,
  keep_if, not, contains, ◌==◌, nat_eq, list_eq, if◌then◌else◌,
}
use parcus.Text.{Text, codes}
use parcus.Text.Decimal.{decimal}
use parcus.Json.{Value, obj, get}
use parcus.Cache.Policy.{CachePolicy, dialect_value}
use parcus.Quota.{RateLimit}
use parcus.Proxy.Usage.{ProviderUsage}
use parcus.Proxy.Dialects.Parse.{ends_with, truth, detect}
use parcus.Proxy.Engine.{EngineConfig, drop_response_headers}
use parcus.Proxy.Engine.Ports.{Bytes, Ports, Externals, Engine}
use parcus.Proxy.Engine.Memory.{
  MemoryAction, memory_off, memory_ingest, memory_compact, memory_summary,
}
use parcus.Proxy.Engine.Result.{
  CacheOutcome, cache_off, cache_miss, cache_hit, cache_similar, stream_bypass, Measured, Meta,
  ProxyResult, Request, UpstreamRequest, UpstreamResponse, Pending, Begun, replied, forwarded,
}
use parcus.Proxy.Engine.Handle.{begin}
use parcus.Proxy.Engine.Stream.{StreamPlan, prepare_stream}
use parcus.Tenant

-- `_streams_by_path`
unfoldable pub streams_by_path : Text → Bool
unfolding ends_with
streams_by_path = ends_with (codes ":streamGenerateContent")

-- The flag of a body; one that cannot be decoded, or is no dict, has none.
unfoldable pub stream_flag : Option Value → Bool
unfolding get truth
stream_flag (some (obj fields)) = truth (get (codes "stream") fields)
stream_flag _ = false

-- `_is_stream`
unfoldable pub is_stream : (Bytes → Option Value) → Text → Bytes → Bool
unfolding streams_by_path stream_flag
is_stream loads path body = if streams_by_path path then true else stream_flag (loads body)

unfoldable pub cache_value : CacheOutcome → Text
cache_value cache_off = codes "off"
cache_value cache_miss = codes "miss"
cache_value cache_hit = codes "hit"
cache_value cache_similar = codes "similar"
cache_value stream_bypass = codes "stream-bypass"

unfoldable pub memory_value : MemoryAction → Text
memory_value memory_off = codes "off"
memory_value memory_ingest = codes "ingest"
memory_value memory_compact = codes "compact"
memory_value memory_summary = codes "summary"

abbrev pub Headers : Type 0
Headers = List (Text × Text)

unfoldable pub label_headers : Meta → Headers
unfolding cache_value dialect_value
label_headers meta =
    if meta.labelled
    then (codes "x-parcus-cache", cache_value meta.cache)
      ∷ (codes "x-parcus-dialect", dialect_value meta.dialect)
      ∷ []
    else []

unfoldable pub measure_headers : Option Measured → Headers
unfolding memory_value decimal
measure_headers none = []
measure_headers (some m) =
    (codes "x-parcus-memory", memory_value m.memory)
    ∷ (codes "x-parcus-tokens-before", decimal m.tokens_before)
    ∷ (codes "x-parcus-tokens-after", decimal m.tokens_after)
    ∷ (codes "x-parcus-tokens-saved", decimal (m.tokens_before - m.tokens_after))
    ∷ []

unfoldable pub usage_headers : Option ProviderUsage → Headers
unfolding decimal
usage_headers none = []
usage_headers (some usage) =
    (codes "x-parcus-upstream-input-tokens", decimal usage.input_tokens)
    ∷ (codes "x-parcus-upstream-output-tokens", decimal usage.output_tokens)
    ∷ (codes "x-parcus-upstream-cache-read-tokens", decimal usage.cache_read_tokens)
    ∷ (codes "x-parcus-upstream-cache-write-tokens", decimal usage.cache_write_tokens)
    ∷ []

-- `_meta_headers`: the items of the dict, whose keys differ.
unfoldable pub meta_headers : Meta → Headers
unfolding label_headers measure_headers usage_headers
meta_headers meta =
    label_headers meta ++ (measure_headers meta.measured ++ usage_headers meta.upstream_usage)

pub record Response : Type 0 where
  pub status_code : ℕ
  pub headers : Headers
  pub content : Bytes

-- The web framework: the headers of `Response(content=…, headers=…)`, and `headers[key] = value`.
pub record Framework : Type 0 where
  pub fresh : Headers → Bytes → Headers
  pub assign : Text → Text → Headers → Headers

abbrev pub assign_pair : Framework → Text × Text → Headers → Headers
assign_pair web (k, v) = web.assign k v

-- `_result_to_response`
unfoldable pub result_to_response : Framework → ProxyResult → Response
unfolding meta_headers dict_of
result_to_response web result = record {
  status_code = result.status_code;
  headers =
      fold (assign_pair web) (meta_headers result.meta)
        (web.fresh (dict_of result.headers) result.content);
  content = result.content;
}

-- The headers of a relayed answer: a dict of the upstream's, which httpx lists with their names in
-- lower case and the values of one name merged, less the hop headers, updated with the proxy's own.
unfoldable pub relayed_headers : (Text → Text) → Headers → Meta → Headers
unfolding meta_headers dict_of put_pair
relayed_headers lower headers meta = fold put_pair (meta_headers meta) (
    dict_of
      (keep_if (λ (h : Text × Text). not (contains (lower h.0) drop_response_headers)) headers))

-- The pages that the proxy answers itself.
pub data Page : Type 0 where
  health stats metrics : Page

unfoldable pub page_of : Text → Option Page
page_of path =
    if path == codes "/__parcus__/health"
    then some health
    else if path == codes "/__parcus__/stats"
    then some stats
    else if path == codes "/__parcus__/metrics"
    then some metrics
    else none

-- What a request comes to at once: a page, an answer, or a call of an upstream whose answer is
-- relayed or buffered.
pub data Served : Type 0 where
  page : Page → Served
  answered : Response → Served
  relays : UpstreamRequest → Meta → Served
  buffers : UpstreamRequest → Pending → Served

module _ {S : Type 0} (web : Framework) (ext : Externals) (ports : Ports S) (config : EngineConfig)
    (policy : CachePolicy) (ticks : ℕ) (limiter : Option RateLimit) where
  -- `_stream_passthrough` up to the call of the upstream
  unfoldable pub relay : Request → StreamPlan → Served
  unfolding result_to_response
  relay request plan = elim plan.early [
    | some result ↦ answered (result_to_response web result)
    | none ↦
        relays
          (record {
            method = request.method;
            url = plan.url;
            headers = plan.forward_headers;
            content = plan.out_body;
          })
          plan.meta
  ]

  unfoldable pub reply : Begun → Served
  unfolding result_to_response
  reply (replied result) = answered (result_to_response web result)
  reply (forwarded out pending) = buffers out pending

  unfoldable pub pass_on : Bool → Engine S → ℕ → Request → Engine S × Served
  unfolding relay reply prepare_stream begin detect
  pass_on true engine now request =
      let (engine', plan) =
        prepare_stream ext ports config ticks limiter engine now (detect request.path) request in
      (engine', relay request plan)
  pass_on false engine now request =
      let (engine', begun) = begin ext ports config policy ticks limiter engine now request in
      (engine', reply begun)

  -- `proxy` up to the call of the upstream
  unfoldable pub serve : Engine S → ℕ → Request → Engine S × Served
  unfolding page_of pass_on is_stream
  serve engine now request = elim (page_of request.path) [
    | some local ↦ (engine, page local)
    | none ↦ pass_on (is_stream ext.loads request.path request.body) engine now request
  ]
