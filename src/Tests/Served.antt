-- ===== src/Tests/Served.antt =====
-- proxy/app.py on concrete requests and answers.
use parcus.Prelude.{
  ◌≡◌, refl, ap, false, none, some, [], ◌∷◌, delete, lookup, ◌==◌, nat_eq, list_eq, arith, beq_refl,
  Bool-cases, inl, inr,
}
use parcus.Json.{get}
use parcus.Proxy.Dialects.Gemini.{parse_gemini, parse}
use parcus.Proxy.Engine.Outbound.{parse_decoded, model_of_path, canonicalize}
use parcus.Quota.{check}
use parcus.Proxy.Engine.Admit.{check_rate, tenant_of, admit, status}
use parcus.Tenant.{is_authorized, derive_tenant}
use parcus.Proxy.Engine.Stream.{routed_url, plan, dispatch_stream, prepare_stream}
use parcus.Proxy.Server.{
  relay, pass_on, Headers, Framework, Response, answered, serve, page_of, is_stream,
  streams_by_path, meta_headers, label_headers, measure_headers, usage_headers, result_to_response,
  relayed_headers,
}
use parcus.Proxy.Engine.{forward_headers, route}
use parcus.Text.{Text, codes}
use parcus.Model.{anthropic}
use parcus.Proxy.Dialects.Parse.{detect, ends_with}
use parcus.Proxy.Engine.Result.{
  Request, UpstreamRequest, ProxyResult, bare_meta, cache_miss, upstream_url,
}
use parcus.Proxy.Server.Guards.{outgoing, IsAllowed, serve-refuses, serve-sends}
use parcus.Proxy.Engine.Forwarding.{Strips}
use parcus.Proxy.Server.Headers.{values, Assigns, meta_headers-win}
use parcus.Tests.Setting.{ports, ext, config, policy, request, engine, limit}

abbrev web : Framework
web = record { fresh = λ hs content. hs; assign = λ k v hs. (k, v) ∷ delete k hs }

-- The names here have no upper case.
abbrev same : Text → Text
same t = t

values-delete : (k : Text) (hs : Headers) → values same k (delete k hs) ≡ []
unfolding delete
values-delete k [] = refl
values-delete k ((j, v) ∷ hs) = ground (arith, values-delete k hs)

values-delete_other :
    (j k : Text) (hs : Headers) → (k == j) ≡ false → values same j (delete k hs) ≡ values same j hs
unfolding delete
values-delete_other j k [] h = refl
values-delete_other j k ((i, v) ∷ hs) h = elim (Bool-cases (i == k)) [
  | inl equal ↦ rw (equal, (list_eq.beq_iff i k).0 equal, h) (values-delete_other j k hs h)
  | inr other ↦ rw other (elim (Bool-cases (i == j)) [
    | inl at ↦ rw at (ap (λ vs. v ∷ vs) (values-delete_other j k hs h))
    | inr off ↦ rw off (values-delete_other j k hs h)
  ])
]

web-Assigns : Assigns same web
web-Assigns = record {
  replaces = λ k v hs. rw (beq_refl k) (ap (λ vs. v ∷ vs) (values-delete k hs));
  keeps = λ j k v hs h. rw h (values-delete_other j k hs h);
}

-- The upstream sends a header of the proxy's.
abbrev spoofed : Headers
spoofed = (codes "x-parcus-cache", codes "hit") ∷ (codes "server", codes "s") ∷ []

abbrev result : ProxyResult
result = record {
  status_code = 200;
  headers = spoofed;
  content = [];
  meta = bare_meta anthropic cache_miss [];
}

meta_headers-win_example :
    (values same (codes "x-parcus-cache") (result_to_response web result).headers
      ≡ codes "miss" ∷ [])
    × (values same (codes "x-parcus-cache") (relayed_headers same spoofed result.meta)
        ≡ codes "miss" ∷ [])
unfolding meta_headers label_headers measure_headers usage_headers
meta_headers-win_example =
    meta_headers-win same web web-Assigns result spoofed (codes "x-parcus-cache") (codes "miss")
      refl (refl, (refl, tt)) (refl, (refl, tt)) refl

abbrev lost : Request
lost = record {
  method = codes "GET";
  path = codes "/x:streamGenerateContent/";
  headers = [];
  body = 1 ∷ [];
  query = [];
}

serve-refuses_example :
    ((serve web ext ports config policy 1 (some limit) engine 5 lost).0 ≡ engine)
    × ((response : Response) × ((serve web ext ports config policy 1 (some limit) engine 5 lost).1
          ≡ answered response)
        × (response.status_code ≡ 502))
unfolding page_of admit status route detect ends_with
serve-refuses_example =
    serve-refuses web ext ports config policy 1 (some limit) engine 5 lost 502 refl refl

abbrev asked : Request
asked = record request {
  path = codes "/v1beta/models/m:streamGenerateContent";
  query = codes "alt=sse";
}

abbrev sent : UpstreamRequest
sent = record {
  method = codes "POST";
  url = codes "u/v1beta/models/m:streamGenerateContent?alt=sse";
  headers = request.headers;
  content = 1 ∷ [];
}

asked-sent :
    outgoing (serve web ext ports config policy 1 (some limit) engine 5 asked).1 ≡ some sent
unfolding serve pass_on relay prepare_stream dispatch_stream plan canonicalize page_of is_stream
    streams_by_path admit route detect ends_with routed_url upstream_url ports tenant_of
    derive_tenant is_authorized check_rate check lookup model_of_path parse parse_decoded
    parse_gemini get forward_headers
asked-sent = refl

serve-sends_example :
    (page_of asked.path ≡ none)
    × ((base : Text) × IsAllowed web ext ports config policy 1 (some limit) engine 5 asked base
        × (sent.url ≡ upstream_url base asked.path asked.query)
        × (sent.headers ≡ forward_headers ext.lower asked.headers)
        × Strips ext.lower asked.headers sent.headers)
serve-sends_example =
    serve-sends web ext ports config policy 1 (some limit) engine 5 asked sent asked-sent
