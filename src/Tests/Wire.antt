-- ===== src/Tests/Wire.antt =====
-- proxy/dialects.py and proxy/engine.py on a concrete body.
use parcus.Prelude.{
  ◌≡◌, ◌⊎◌, ◌-◌, ◌++◌, refl, length, Bool, true, false, Option, none, some, [], ◌∷◌, nat_eq,
  list_eq,
}
use parcus.Text.{Text, codes}
use parcus.Json.{Fields, str, num, arr, obj, nil, cons, end, field, get, put}
use parcus.Model.{user, assistant, anthropic, CanonicalRequest}
use parcus.Proxy.Dialects.Parse.{
  plain, carried, parse_anthropic, parse_items, parse_messages, parse_item, message_of,
  plain_content, has_keys, role_of, tools_json_of, truth,
}
use parcus.Proxy.Dialects.Gemini.{parse}
use parcus.Proxy.Dialects.Serialize.{serialize}
use parcus.Compress.Rewrite.{Counter}
use parcus.Cache.Policy.{CachePolicy, should_cache, matches_any, compute_key}
use parcus.Cache.Seen.{new_seen}
use parcus.Proxy.Engine.{EngineConfig, maybe_cache_key, ask_policy, inject_cache_breakpoint}
use parcus.Quota.{RateLimit}
use parcus.Tenant.{Headers}
use parcus.Proxy.Engine.Keys.{hashed, maybe_cache_key_shared}
use parcus.Proxy.Engine.Inject.{Qualifies, inject_cache_breakpoint-cases}
use parcus.Proxy.Dialects.Fields.{parse-put}
use parcus.Proxy.Dialects.RoundTrip.{reparse}

abbrev asked : Fields
asked = field (codes "role") (str (codes "user")) (field (codes "content") (str (codes "hi")) end)

abbrev tool_call : Fields
tool_call = field (codes "role") (str (codes "assistant")) (field (codes "content") (arr nil) end)

abbrev body : Fields
body = field (codes "model") (str (codes "m")) (
    field (codes "max_tokens") (num true (codes "9"))
      (field (codes "messages") (arr (cons (obj asked) (cons (obj tool_call) nil))) end))

abbrev parsed : CanonicalRequest
parsed = record {
  dialect = anthropic;
  model = str (codes "m");
  messages = plain user (codes "hi") ∷ carried assistant tool_call ∷ [];
  system = none;
  stream = false;
  tools_json = none;
  cache_breakpoint = none;
}

parse-body : parse anthropic body true none ≡ some parsed
unfolding parse parse_anthropic parse_messages parse_items parse_item message_of plain_content get
    role_of truth tools_json_of has_keys
parse-body = refl

reparse_example : parse anthropic (serialize parsed body) true none ≡ some parsed
reparse_example = reparse anthropic body true none parsed parse-body

parse-put_example :
    parse anthropic (put (codes "temperature") (num true (codes "0.9")) body) true none
    ≡ parse anthropic body true none
parse-put_example =
    parse-put anthropic body (codes "temperature") (num true (codes "0.9")) true none refl

abbrev config : EngineConfig
config = record {
  anthropic_upstream = codes "https://api.anthropic.com";
  openai_upstream = codes "https://api.openai.com";
  gemini_upstream = codes "https://generativelanguage.googleapis.com";
  cache_enabled = true;
  salt = codes "s";
  cache_inject = true;
  cache_inject_repeat_aware = true;
  cache_ttl_seconds = 60;
  parse_structured = true;
  memory_enabled = true;
  memory_inject = true;
  memory_summarize = false;
  memory_keep_recent = 4;
  memory_retrieve = 3;
  memory_summary_items = 5;
  memory_min_messages = 8;
  multi_tenant = true;
  allowed_tenants = [];
}

abbrev policy : CachePolicy
policy = record { enabled = true; ttl_seconds = 60; nocache_patterns = []; bypass_on_secret = true }

abbrev no_secret : Text → Option Bool
no_secret t = some false

abbrev raising : Text → Option Bool
raising t = none

abbrev identity : Text → Text
identity t = t

abbrev tenant : Text
tenant = codes "t1"

maybe_cache_key_shared_example : tenant ≡ tenant
unfolding maybe_cache_key ask_policy should_cache matches_any compute_key
maybe_cache_key_shared_example =
    maybe_cache_key_shared identity config policy no_secret parsed parsed tenant tenant
      (codes "v1:" ++ hashed config tenant parsed) refl (λ h. h) refl refl

abbrev many : Counter
many text model = some 5000

inject_cache_breakpoint-cases_example :
    ((inject_cache_breakpoint identity many config (new_seen 8 300) 1 tenant parsed).1 ≡ parsed)
    ⊎ (Qualifies identity many config (new_seen 8 300) 1 tenant parsed
        × ((inject_cache_breakpoint identity many config (new_seen 8 300) 1 tenant parsed).1
            ≡ record parsed { cache_breakpoint = some (length parsed.messages - 2) }))
inject_cache_breakpoint-cases_example =
    inject_cache_breakpoint-cases identity many config (new_seen 8 300) 1 tenant parsed

abbrev key_headers : Headers
key_headers = (codes "x-api-key", codes "k") ∷ []

abbrev limit : RateLimit
limit = record { unit = 1; capacity = 3; refill = 1 }

abbrev own_tenant : Text
own_tenant = codes "s|k"
