-- ===== src/Compress/Lossless/Check.antt =====
-- The lossless pass against its own check, and when it gives up.
use parcus.Prelude.{true, false, Option, none, some, ◌≡◌, ◌≢◌, ap, All, is_empty, ◌∙◌}
use parcus.Text.{Text}
use parcus.Model.{CanonicalRequest}
use parcus.Spans.{next_fence}
use parcus.Invariants.{word_sequence_equal, lossless_violations, is_lossless_equivalent}
use parcus.Compress.Sampling.{VerifySampler}
use parcus.Compress.Rewrite.{Counter, rewrite_request}
use parcus.Compress.Rewrite.Issues.{
  IsParsed, IsSafe, violations_self, violations-rewrite_request, IsSafe-system_issues,
}
use parcus.Compress.Rewrite.Outcome.{compress_by_accepted}
use parcus.Compress.Lossless.{normalise_whitespace, normalise_code_aware, compress}
use parcus.Compress.Lossless.Words.{
  word_sequence_equal_refl, word_sequence_equal-normalise_whitespace, normalise_code_aware_plain,
}

-- The system prompt is absent or holds no complete fenced block.
abbrev pub PlainSystem : Option Text → Type 0
PlainSystem none = Unit
PlainSystem (some t) = next_fence t ≡ none

PlainSystem-IsSafe :
    (t : Option Text) → PlainSystem t → IsSafe word_sequence_equal normalise_code_aware t
PlainSystem-IsSafe none h = tt
PlainSystem-IsSafe (some t) h =
    rw (normalise_code_aware_plain t h) (word_sequence_equal-normalise_whitespace t)

rewrite_request_lossless :
    (r : CanonicalRequest)
    → All IsParsed r.messages
    → PlainSystem r.system
    → is_lossless_equivalent r (rewrite_request normalise_whitespace normalise_code_aware r).0
      ≡ true
unfolding is_lossless_equivalent lossless_violations
rewrite_request_lossless r h p = ap is_empty (
    violations-rewrite_request word_sequence_equal normalise_whitespace normalise_code_aware
      word_sequence_equal-normalise_whitespace word_sequence_equal_refl r h
    ∙ IsSafe-system_issues word_sequence_equal normalise_whitespace normalise_code_aware
        word_sequence_equal-normalise_whitespace word_sequence_equal_refl r.system
        (PlainSystem-IsSafe r.system p))

-- For a request as the parsers build it, whose system prompt holds no complete fenced block: what
-- `compress` returns, also when the token counter raises, passes the lossless check against the
-- request (same roles and spans, immutable spans unchanged, the words of the others and of the
-- system prompt unchanged), and no statistics report a failed check.
pub compress_lossless :
    (count : Counter) (sampler : VerifySampler) (r : CanonicalRequest)
    → All IsParsed r.messages
    → PlainSystem r.system
    → (is_lossless_equivalent r (compress count sampler r).1 ≡ true)
      × All (λ s. s.ok ≢ some false) (compress count sampler r).2
unfolding compress
compress_lossless count sampler r h p =
    compress_by_accepted "lossless" normalise_whitespace normalise_code_aware is_lossless_equivalent
      count sampler r (λ new. is_lossless_equivalent r new ≡ true)
      (unfold is_lossless_equivalent lossless_violations in
        ap is_empty (
          violations_self word_sequence_equal normalise_whitespace normalise_code_aware
            word_sequence_equal-normalise_whitespace word_sequence_equal_refl r))
      (rewrite_request_lossless r h p) (rewrite_request_lossless r h p)
