-- ===== src/Proxy/Engine.antt =====
-- proxy/engine.py: where a request goes, which headers travel with it, under which key its answer is
-- cached, and whether a provider's cache is asked for. `str.lower`, SHA-256, the token counter and
-- the redactor are parameters.
pub mod Admit
pub mod Ports
pub mod Memory
pub mod Outbound
pub mod Result
pub mod Handle
pub mod Finish
pub mod Stream
pub mod Event
pub mod Cost
pub mod Forwarding
pub mod Refusing
pub mod Answers
pub mod Repeats
pub mod Keys
pub mod Inject
use parcus.Prelude.{
  ℕ, Bool, true, false, not, ◌&&◌, ◌||◌, Option, none, some, List, [], ◌∷◌, ◌++◌, map, take,
  contains, keep_if, is_empty, leb, ltb, nat_eq, list_eq, ◌==◌, if◌then◌else◌,
}
use parcus.Text.{Text, codes, concat, rstrip, strip_by, drop_while_end}
use parcus.Json.{Value, Items, Fields, null, bool, num, str, arr, obj, nil, cons, get, as_arr}
use parcus.Model.{
  Dialect, anthropic, openai, gemini, unknown, dialect_eq, CacheModel, explicit_breakpoint, Message,
  message_text, CanonicalRequest, text_or_empty,
}
use parcus.Tenant.{Headers, header}
use parcus.Cache.Policy.{CachePolicy, matches_any, should_cache, compute_key}
use parcus.Cache.Seen.{PrefixSeenSet, record_and_check}
use parcus.Cache.Strategy.{Strategy, capability, cacheable_boundary, annotate, cache_strategy}
use parcus.Compress.Rewrite.{Counter}

-- The settings of the engine.
pub record EngineConfig : Type 0 where
  pub anthropic_upstream : Text
  pub openai_upstream : Text
  pub gemini_upstream : Text
  pub cache_enabled : Bool
  pub salt : Text
  pub cache_inject : Bool
  pub cache_inject_repeat_aware : Bool
  pub cache_ttl_seconds : ℕ
  pub parse_structured : Bool
  pub memory_enabled : Bool
  pub memory_inject : Bool
  pub memory_summarize : Bool
  pub memory_keep_recent : ℕ
  pub memory_retrieve : ℕ
  pub memory_summary_items : ℕ
  pub memory_min_messages : ℕ
  pub multi_tenant : Bool
  pub allowed_tenants : List Text

abbrev is_present : Option Text → Bool
is_present none = false
is_present (some _) = true

-- `route`: a path of no known dialect is routed by its headers.
unfoldable pub route : (Text → Text) → EngineConfig → Dialect → Headers → Option Text
unfolding header
route lower config anthropic hs = some config.anthropic_upstream
route lower config openai hs = some config.openai_upstream
route lower config gemini hs = some config.gemini_upstream
route lower config unknown hs =
    if is_present (header lower (codes "x-api-key") hs)
      || is_present (header lower (codes "anthropic-version") hs)
    then some config.anthropic_upstream
    else if is_present (header lower (codes "x-goog-api-key") hs)
    then some config.gemini_upstream
    else if is_present (header lower (codes "authorization") hs)
    then some config.openai_upstream
    else none

abbrev pub drop_request_headers : List Text
drop_request_headers =
    codes "host" ∷ codes "content-length" ∷ codes "accept-encoding" ∷ codes "connection" ∷ []

abbrev pub drop_response_headers : List Text
drop_response_headers =
    codes "content-length"
    ∷ codes "transfer-encoding"
    ∷ codes "connection"
    ∷ codes "content-encoding"
    ∷ []

unfoldable pub forward_headers : (Text → Text) → Headers → Headers
forward_headers lower = keep_if (λ h. not (contains (lower h.0) drop_request_headers))

unfoldable pub response_headers : (Text → Text) → Headers → Headers
response_headers lower = keep_if (λ h. not (contains (lower h.0) drop_response_headers))

-- `_content_type`: the first header of the name.
unfoldable pub content_type : (Text → Text) → Headers → Option Text
content_type lower [] = none
content_type lower ((k, v) ∷ hs) =
    if lower k == codes "content-type" then some v else content_type lower hs

-- `_safe_count`
unfoldable pub safe_count : Counter → Text → Value → ℕ
safe_count count text model = elim (count text model) [ none ↦ 0 | some n ↦ n ]

abbrev pub tenant_salt : Text → Text → Text
tenant_salt salt [] = salt
tenant_salt salt (c ∷ tenant) = salt ++ (codes "|t:" ++ (c ∷ tenant))

abbrev pub is_null : Value → Bool
is_null null = true
is_null _ = false

-- The policy's answer, or none where the redactor raises: it is asked last, if the policy is
-- enabled, no pattern matches and secrets are to be kept out.
unfoldable pub ask_policy : CachePolicy → (Text → Option Bool) → CanonicalRequest → Option Bool
unfolding should_cache
ask_policy policy has_secret r =
    if should_cache policy r none && policy.bypass_on_secret
    then elim (has_secret (parcus.Model.request_text r)) [
      | none ↦ none
      | some found ↦ some (not found)
    ]
    else some (should_cache policy r none)

-- `_maybe_cache_key`
unfoldable pub maybe_cache_key :
    (Text → Text)
    → EngineConfig
    → CachePolicy
    → (Text → Option Bool)
    → CanonicalRequest
    → Text
    → Option Text
unfolding ask_policy compute_key
maybe_cache_key sha256_hex config policy has_secret r tenant =
    if not config.cache_enabled || r.stream
    then none
    else if r.dialect == gemini && is_null r.model
    then none
    else elim (ask_policy policy has_secret r) [
      | some true ↦ some (compute_key sha256_hex r (tenant_salt config.salt tenant))
      | _ ↦ none
    ]

-- `"cache_control" in block`
unfoldable pub is_marked : Value → Bool
unfolding get
is_marked (obj block) = elim (get (codes "cache_control") block) [ none ↦ false | some _ ↦ true ]
is_marked _ = false

unfoldable pub any_marked : Items → Bool
unfolding is_marked
any_marked nil = false
any_marked (cons block rest) = is_marked block || any_marked rest

abbrev raw_marked : Option Items → Bool
raw_marked none = false
raw_marked (some items) = any_marked items

unfoldable pub has_cache_control : List Message → Bool
unfolding any_marked get
has_cache_control [] = false
has_cache_control (m ∷ ms) = elim m.raw [
  | none ↦ has_cache_control ms
  | some raw ↦ raw_marked (as_arr (get (codes "content") raw)) || has_cache_control ms
]

abbrev pub explicit : CacheModel → Bool
explicit explicit_breakpoint = true
explicit _ = false

-- The cacheable prefix of a request.
unfoldable pub prefix_of : CanonicalRequest → ℕ → Text
unfolding message_text concat
prefix_of r boundary =
    (text_or_empty r.system ++ text_or_empty r.tools_json)
    ++ concat (map message_text (take boundary r.messages))

-- The part of `_inject_cache_breakpoint` behind the search for a boundary.
unfoldable pub mark_prefix :
    (Text → Text)
    → Counter
    → EngineConfig
    → PrefixSeenSet
    → ℕ
    → Text
    → CanonicalRequest
    → ℕ
    → PrefixSeenSet × CanonicalRequest
unfolding prefix_of safe_count record_and_check annotate
mark_prefix sha256_hex count config seen now tenant r boundary =
    let strategy = cache_strategy r.dialect in
    let prefix = prefix_of r boundary in
    let (seen', repeated) =
      record_and_check seen now (sha256_hex (config.salt ++ (0 ∷ prefix))) tenant in
    if ltb boundary 1
    then (seen, r)
    else if ltb (safe_count count prefix r.model) (capability strategy).min_prefix_tokens
    then (seen, r)
    else if not config.cache_inject_repeat_aware
    then (seen, annotate strategy r)
    else if repeated
    then (seen', annotate strategy r)
    else (seen', r)

-- `_inject_cache_breakpoint`; the set of prefixes is the engine's state.
unfoldable pub inject_cache_breakpoint :
    (Text → Text)
    → Counter
    → EngineConfig
    → PrefixSeenSet
    → ℕ
    → Text
    → CanonicalRequest
    → PrefixSeenSet × CanonicalRequest
unfolding capability cacheable_boundary cache_strategy has_cache_control mark_prefix
inject_cache_breakpoint sha256_hex count config seen now tenant r =
    let strategy = cache_strategy r.dialect in
    if not config.cache_inject
    then (seen, r)
    else if not (explicit (capability strategy).model)
    then (seen, r)
    else if has_cache_control r.messages
    then (seen, r)
    else elim (cacheable_boundary strategy r) [
      | none ↦ (seen, r)
      | some boundary ↦ mark_prefix sha256_hex count config seen now tenant r boundary
    ]
