-- ===== src/Tests/Entry.antt =====
-- proxy/engine.py: a request that is forwarded, answered, and comes again.
use parcus.Cache.Store as Plain
use parcus.Prelude.{
  ◌⊎◌, ◌≡◌, refl, true, false, Option, none, some, [], ◌∷◌, lookup, nat_eq, list_eq, pair_eq, arith,
}
use parcus.Proxy.Engine.Forwarding.{begin-forwarded, Sent}
use parcus.Proxy.Engine.{response_headers, ask_policy, maybe_cache_key, route}
use parcus.Proxy.Engine.Cost.{Sends, compress_request-Sends}
use parcus.Proxy.Usage.{ProviderUsage}
use parcus.Proxy.Engine.Answers.{ReportsInfinite, finish-cases}
use parcus.Model.{user, anthropic, CachedResponse, CanonicalRequest}
use parcus.Proxy.Dialects.Parse.{
  plain, has_keys, tools_json_of, truth, role_of, plain_content, message_of, parse_item,
  parse_items, parse_messages, ends_with, parse_anthropic, detect,
}
use parcus.Proxy.Engine.Outbound.{parse_decoded, model_of_path, canonicalize, compress_request}
use parcus.Proxy.Engine.Admit.{rate_allows, admitted, check_rate, tenant_of, admit}
use parcus.Cache.Policy.{compute_key, matches_any, should_cache}
use parcus.Json.{get, str, num, obj, field, end}
use parcus.Proxy.Dialects.Gemini.{parse}
use parcus.Quota.{check}
use parcus.Tenant.{is_authorized, derive_tenant}
use parcus.Proxy.Engine.Handle.{
  measure, upstream_to, key_of, consult, with_key, optimize, proceed, process, dispatch, begin,
}
use parcus.Proxy.Engine.Memory.{apply_memory}
use parcus.Text.{Text, codes}
use parcus.Cache.Seen.{new_seen}
use parcus.Proxy.Engine.Ports.{Externals, Engine}
use parcus.Proxy.Engine.Result.{
  is_success, Request, UpstreamRequest, UpstreamResponse, Pending, Begun, replied, forwarded,
  bare_meta, cache_off,
}
use parcus.Proxy.Engine.Finish.{finish}
use parcus.Proxy.Engine.Repeats.{RepliesWith, begin-finish}
use parcus.Tests.Setting.{
  ports, Works, ports-IsCaching, ext, config, policy, request, engine, limit,
}

abbrev first : Engine Plain.Table × Begun
unfolding begin
first = begin ext ports config policy 1 (some limit) engine 5 request

abbrev sent_of : Begun → UpstreamRequest
sent_of (replied result) = record { method = []; url = []; headers = []; content = [] }
sent_of (forwarded out pending) = out

abbrev pending_of : Begun → Pending
pending_of (replied result) = record {
  dialect = parcus.Model.unknown;
  tenant = [];
  canonical = none;
  cache_key = none;
  meta = bare_meta parcus.Model.unknown cache_off [];
}
pending_of (forwarded out pending) = pending

first-forwarded : first ≡ (first.0, forwarded (sent_of first.1) (pending_of first.1))
unfolding first ports Plain.get begin dispatch process proceed optimize with_key consult
    apply_memory compress_request key_of upstream_to measure admit route tenant_of derive_tenant
    is_authorized check_rate check detect ends_with canonicalize model_of_path parse parse_anthropic
    parse_decoded parse_messages parse_items parse_item message_of plain_content get role_of truth
    tools_json_of has_keys lookup maybe_cache_key ask_policy should_cache matches_any compute_key
first-forwarded = refl

abbrev answer : UpstreamResponse
answer = record {
  status_code = 200;
  headers = (codes "content-type", codes "application/json") ∷ (codes "connection", codes "x") ∷ [];
  content = 7 ∷ 8 ∷ [];
}

abbrev after_answer : Engine Plain.Table
unfolding finish first ports
after_answer = (finish ext ports config first.0 7 (pending_of first.1) answer).0

abbrev held_key : Option Text → Text
held_key none = []
held_key (some key) = key

abbrev the_key : Text
unfolding first
the_key = held_key (pending_of first.1).cache_key

abbrev own_tenant : Text
own_tenant = codes "s|k"

keyed : (pending_of first.1).cache_key ≡ some the_key
unfolding first the_key ports Plain.get begin dispatch process proceed optimize with_key consult
    apply_memory compress_request key_of upstream_to measure admit route tenant_of derive_tenant
    is_authorized check_rate check detect ends_with canonicalize model_of_path parse parse_anthropic
    parse_decoded parse_messages parse_items parse_item message_of plain_content get role_of truth
    tools_json_of has_keys lookup maybe_cache_key ask_policy should_cache matches_any compute_key
keyed = refl

admitted_again :
    (admit ext.lower ext.sha256_hex config
      (some limit)
      20
      (detect request.path)
      request.headers
      after_answer.buckets).1
    ≡ admitted (codes "u") own_tenant
unfolding after_answer finish first begin dispatch process proceed optimize with_key consult ports
    Plain.get admit route tenant_of derive_tenant is_authorized check_rate check detect ends_with
    lookup apply_memory compress_request canonicalize model_of_path parse parse_anthropic
    parse_decoded parse_messages parse_items parse_item message_of plain_content get role_of truth
    tools_json_of has_keys key_of maybe_cache_key ask_policy should_cache matches_any compute_key
admitted_again = refl

begin-finish_example :
    RepliesWith answer (begin ext ports config policy 1 (some limit) after_answer 20 request).1
unfolding after_answer
begin-finish_example =
    begin-finish ext ports config policy 1 Works ports-IsCaching (some limit) engine first.0
      after_answer 5 7 20 request (sent_of first.1) (pending_of first.1) answer the_key (codes "u")
      own_tenant refl first-forwarded keyed refl tt (omega arith) refl (omega arith) admitted_again

begin-forwarded_example :
    (base : Text) × (route ext.lower config (detect request.path) request.headers ≡ some base)
    × (is_authorized
          (tenant_of ext.lower ext.sha256_hex config request.headers)
          config.allowed_tenants
        ≡ true)
    × (rate_allows (some limit) 5 (tenant_of ext.lower ext.sha256_hex config request.headers) []
        ≡ true)
    × Sent ext ports config policy
        (detect request.path)
        base
        (tenant_of ext.lower ext.sha256_hex config request.headers)
        request
        (sent_of first.1)
        (pending_of first.1)
unfolding begin first
begin-forwarded_example =
    begin-forwarded ext ports config policy 1 (some limit) engine first.0 5 request
      (sent_of first.1) (pending_of first.1) first-forwarded

abbrev said : CanonicalRequest
said = record {
  dialect = anthropic;
  model = str (codes "m");
  messages = plain user (codes "hi") ∷ [];
  system = none;
  stream = false;
  tools_json = none;
  cache_breakpoint = none;
}

compress_request-Sends_example :
    Sends ext ports config said
      (1 ∷ [])
      (compress_request ext ports config (new_seen 8 300) [] 5 said (1 ∷ []) own_tenant).2
compress_request-Sends_example =
    compress_request-Sends ext ports config (new_seen 8 300) [] 5 said (1 ∷ []) own_tenant

abbrev lost : Request
lost = record { method = codes "GET"; path = codes "/x"; headers = []; body = 1 ∷ []; query = [] }

abbrev bare : Request
bare = record request { body = [] }

-- A provider that reports an infinite number of tokens.
abbrev endless : Externals
endless = record ext {
  loads = λ bytes. some (
      obj (
        field (codes "usage") (obj (field (codes "input_tokens") (num true (codes "1e999")) end))
          end));
  int_of = λ t. none;
}

finish-cases_example :
    (((finish endless ports config first.0 7 (pending_of first.1) answer).1 ≡ none)
      × (is_success 200 ≡ true)
      × ReportsInfinite endless.loads endless.int_of (pending_of first.1).dialect answer.content)
    ⊎ ((usage : Option ProviderUsage) × ((finish endless ports config first.0 7
            (pending_of first.1)
            answer).1
          ≡ some (record {
            status_code = 200;
            headers = response_headers ext.lower answer.headers;
            content = 7 ∷ 8 ∷ [];
            meta = record (pending_of first.1).meta { upstream_usage = usage };
          }))
        × (is_success 200 ≡ true
            → ReportsInfinite endless.loads endless.int_of
                (pending_of first.1).dialect
                answer.content
            → ⊥))
finish-cases_example = finish-cases endless ports config first.0 7 (pending_of first.1) answer
