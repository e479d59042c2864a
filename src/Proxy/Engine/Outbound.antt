-- ===== src/Proxy/Engine/Outbound.antt =====
-- proxy/engine.py: the body is decoded into the canonical request, compressed, and written for the
-- provider.
use parcus.Prelude.{
  ℕ, Bool, false, Option, none, some, List, [], ◌∷◌, map, is_empty, ltb, nat_eq, list_eq, ◌==◌,
  if◌then◌else◌,
}
use Prim.Native.String.{String}
use parcus.Text.{Text}
use parcus.Json.{Fields, obj, dumps, compact_style}
use parcus.Model.{user, role_eq, Dialect, gemini, CanonicalRequest, request_text, CompressionStats}
use parcus.Cache.Seen.{PrefixSeenSet}
use parcus.Proxy.Dialects.Parse.{gemini_model_from_path}
use parcus.Proxy.Dialects.Gemini.{parse}
use parcus.Proxy.Dialects.Serialize.{serialize}
use parcus.Proxy.Usage.{as_dict}
use parcus.Proxy.Engine.{EngineConfig, safe_count, inject_cache_breakpoint}
use parcus.Proxy.Engine.Ports.{Bytes, Ports, Externals}

unfoldable pub model_of_path : Dialect → Text → Option Text
unfolding gemini_model_from_path
model_of_path gemini path = gemini_model_from_path path
model_of_path _ path = none

unfoldable pub parse_decoded :
    Bool → Dialect → Option Text → Option Fields → Option CanonicalRequest
unfolding parse
parse_decoded structured dialect name none = none
parse_decoded structured dialect name (some body) = parse dialect body structured name

-- `_canonicalize`; a body of an unknown dialect is not parsed by `parse` either.
unfoldable pub canonicalize :
    Externals → EngineConfig → Dialect → Bytes → Text → Option CanonicalRequest
unfolding model_of_path parse_decoded
canonicalize ext config dialect body path =
    if is_empty body
    then none
    else parse_decoded config.parse_structured dialect (model_of_path dialect path)
        (as_dict (ext.loads body))

pub record StageStat : Type 0 where
  pub stage : String
  pub tokens_before : ℕ
  pub tokens_after : ℕ
  pub ok : Option Bool

-- `_memory_structural_ok`
unfoldable pub memory_structural_ok : CanonicalRequest → Bool
memory_structural_ok r = elim r.messages [ [] ↦ false | m ∷ ms ↦ m.role == user ]

abbrev stage_of : CompressionStats → StageStat
stage_of stat = record {
  stage = stat.step;
  tokens_before = stat.tokens_before;
  tokens_after = stat.tokens_after;
  ok = stat.ok;
}

unfoldable pub tokens_of : Externals → CanonicalRequest → ℕ
unfolding safe_count request_text
tokens_of ext r = safe_count ext.count (request_text r) r.model

-- `_stage_stats`
unfoldable pub stage_stats :
    Externals → CanonicalRequest → CanonicalRequest → Bool → List CompressionStats → List StageStat
unfolding tokens_of memory_structural_ok
stage_stats ext canonical working compacted stats =
    let rest = map stage_of stats in
    if compacted
    then record {
      stage = "memory";
      tokens_before = tokens_of ext canonical;
      tokens_after = tokens_of ext working;
      ok = some (memory_structural_ok working);
    }
      ∷ rest
    else rest

-- What `_compress_request` sends: the body, the request it was written from, and the statistics.
pub record Outbound : Type 0 where
  pub body : Bytes
  pub chosen : CanonicalRequest
  pub stats : List CompressionStats

module _ {S : Type 0} (ext : Externals) (ports : Ports S) (config : EngineConfig) where
  -- The guard against a compression that adds tokens.
  unfoldable pub choose :
      CanonicalRequest
      → CanonicalRequest × List CompressionStats
      → CanonicalRequest × List CompressionStats
  unfolding tokens_of
  choose working (compressed, stats) =
      if ltb (tokens_of ext working) (tokens_of ext compressed)
      then (working, [])
      else (compressed, stats)

  -- The chosen request, marked and written over the decoded body.
  unfoldable pub write_outbound :
      PrefixSeenSet
      → ℕ
      → Text
      → Fields
      → CanonicalRequest × List CompressionStats
      → PrefixSeenSet × Option Outbound
  unfolding inject_cache_breakpoint serialize
  write_outbound seen now tenant decoded (chosen, stats) =
      let (seen', marked) =
        inject_cache_breakpoint ext.sha256_hex ext.count config seen now tenant chosen in
      elim (ext.utf8 (dumps compact_style (obj (serialize marked decoded)))) [
        | none ↦ (seen', none)
        | some bytes ↦ (seen', some (record { body = bytes; chosen = marked; stats = stats }))
      ]

  -- `_compress_request`. Where a call raises, the original body is sent. The body is an object, or
  -- there would be no canonical request.
  unfoldable pub compress_request :
      PrefixSeenSet → S → ℕ → CanonicalRequest → Bytes → Text → PrefixSeenSet × S × Outbound
  unfolding choose write_outbound
  compress_request seen s now working original tenant =
      let unchanged : Outbound = record { body = original; chosen = working; stats = [] } in
      let (s', compressed) = ports.compress s working in
      elim (as_dict (ext.loads original)) [
        | none ↦ (seen, s, unchanged)
        | some decoded ↦ elim compressed [
          | none ↦ (seen, s', unchanged)
          | some result ↦
              let (seen', outbound) =
                write_outbound seen now tenant decoded (choose working result) in
              (seen', s', elim outbound [ none ↦ unchanged | some out ↦ out ])
        ]
      ]
