-- ===== src/Proxy/Engine/Cost.antt =====
-- proxy/engine.py, `_compress_request`: a request does not grow.
use mathlib.Core.Path.{subst}
use parcus.Prelude.{
  [], ◌⊎◌, refl, ℕ, ◌≤◌, ◌≡◌, ap, sym, ◌∙◌, some, List, Option-cases, inl, inr, arith,
}
use parcus.Text.{Text}
use parcus.Model.{CanonicalRequest, CompressionStats}
use parcus.Json.{Fields, obj, dumps, compact_style}
use parcus.Proxy.Dialects.Serialize.{serialize}
use parcus.Proxy.Usage.{as_dict}
use parcus.Cache.Seen.{PrefixSeenSet}
use parcus.Proxy.Engine.{EngineConfig, inject_cache_breakpoint}
use parcus.Proxy.Engine.Inject.{inject_cache_breakpoint-cases}
use parcus.Proxy.Engine.Ports.{Bytes, Ports, Externals}
use parcus.Proxy.Engine.Outbound.{tokens_of, choose, write_outbound, Outbound, compress_request}

module _ {S : Type 0} (ext : Externals) (ports : Ports S) (config : EngineConfig) where
  choose-le :
      (working : CanonicalRequest) (compressed : CanonicalRequest × List CompressionStats)
      → tokens_of ext (choose ext ports config working compressed).0 ≤ tokens_of ext working
  unfolding choose
  choose-le working (compressed, stats) = ground arith

  -- The marker of a breakpoint is not counted.
  inject_tokens :
      (seen : PrefixSeenSet) (now : ℕ) (tenant : Text) (r : CanonicalRequest)
      → tokens_of ext (inject_cache_breakpoint ext.sha256_hex ext.count config seen now tenant r).1
        ≡ tokens_of ext r
  unfolding tokens_of
  inject_tokens seen now tenant r =
      elim (inject_cache_breakpoint-cases ext.sha256_hex ext.count config seen now tenant r) [
        | inl e ↦ ap (tokens_of ext) e
        | inr (_, e) ↦ ap (tokens_of ext) e
      ]

  -- What is sent: the body as it came, without statistics; or the body written from a request that has at
  -- most the tokens of the one that was given.
  abbrev pub Sends : CanonicalRequest → Bytes → Outbound → Type 0
  Sends working original out =
      (out ≡ record { body = original; chosen = working; stats = [] })
      ⊎ ((decoded : Fields) × (as_dict (ext.loads original) ≡ some decoded)
          × (ext.utf8 (dumps compact_style (obj (serialize out.chosen decoded))) ≡ some out.body)
          × (tokens_of ext out.chosen ≤ tokens_of ext working))

  write_outbound-sends :
      (seen : PrefixSeenSet) (now : ℕ) (tenant : Text) (decoded : Fields)
      (result : CanonicalRequest × List CompressionStats) (out : Outbound)
      → (write_outbound ext ports config seen now tenant decoded result).1 ≡ some out
      → (tokens_of ext out.chosen ≡ tokens_of ext result.0)
        × (ext.utf8 (dumps compact_style (obj (serialize out.chosen decoded))) ≡ some out.body)
  unfolding write_outbound
  write_outbound-sends seen now tenant decoded (chosen, stats) out h =
      let (seen', marked) =
        inject_cache_breakpoint ext.sha256_hex ext.count config seen now tenant chosen in
      elim (Option-cases (ext.utf8 (dumps compact_style (obj (serialize marked decoded))))) [
        | inl e ↦ absurd (ground arith)
        | inr (bytes, e) ↦
            let same : out.chosen ≡ marked = ground arith in
            let written : out.body ≡ bytes = ground arith in
            (
              ap (tokens_of ext) same ∙ inject_tokens seen now tenant chosen,
              ap (λ m. ext.utf8 (dumps compact_style (obj (serialize m decoded)))) same
                  ∙ (e ∙ ap some (sym written)),
            )
      ]

  -- Whatever the compressor does, the body that is forwarded is either the one that came in, without
  -- statistics of a pass, or is written from a request that has at most as many tokens as the one
  -- given to the compressor, by the counter in use.
  pub compress_request-Sends :
      (seen : PrefixSeenSet) (s : S) (now : ℕ) (working : CanonicalRequest) (original : Bytes)
      (tenant : Text)
      → Sends working original
          (compress_request ext ports config seen s now working original tenant).2
  unfolding compress_request
  compress_request-Sends seen s now working original tenant =
      elim (Option-cases (as_dict (ext.loads original))) [
        | inl e ↦ rw (e, compress_request) (inl refl)
        | inr (decoded, e) ↦ elim (Option-cases (ports.compress s working).1) [
          | inl c ↦ rw (e, compress_request) (rw (c, compress_request) (inl refl))
          | inr (result, c) ↦
              let picked = choose ext ports config working result in
              elim (Option-cases
                (write_outbound ext ports config seen now tenant decoded picked).1) [
                  | inl w ↦
                      rw (e, compress_request)
                        (rw (c, compress_request) (rw (w, compress_request) (inl refl)))
                  | inr (out, w) ↦
                      let (tokens, written) =
                        write_outbound-sends seen now tenant decoded picked out w in
                      let le : tokens_of ext out.chosen ≤ tokens_of ext working =
                        subst (λ n. n ≤ tokens_of ext working) (sym tokens)
                          (choose-le working result) in
                      rw (e, compress_request)
                        (rw (c, compress_request)
                          (rw (w, compress_request) (inr (decoded, refl, written, le))))
                ]
        ]
      ]
