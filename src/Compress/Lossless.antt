-- ===== src/Compress/Lossless.antt =====
-- compress/lossless.py: white space that carries no meaning is taken out of the mutable spans.
pub mod Words
pub mod Check
use parcus.Prelude.{
  ℕ, Bool, true, false, ◌&&◌, Option, none, some, List, [], ◌∷◌, ◌++◌, map, ◌==◌, nat_eq,
  if◌then◌else◌,
}
use parcus.Text.{Text, newline, split_on, join, rstrip, concat}
use parcus.Model.{Span, CanonicalRequest}
use parcus.Spans.{classify_spans}
use parcus.Invariants.{is_lossless_equivalent}
use parcus.Compress.Sampling.{VerifySampler}
use parcus.Compress.Rewrite.{Counter, Outcome, compress_by}

-- A newline in front of a text that begins with two of them is dropped.
abbrev squeeze : ℕ → Text → Text
squeeze c [] = c ∷ []
squeeze c (d ∷ []) = c ∷ d ∷ []
squeeze c (d ∷ e ∷ s) =
    if c == newline && d == newline && e == newline then d ∷ e ∷ s else c ∷ d ∷ e ∷ s

-- `re.sub("\n{3,}", "\n\n", text)`: a run of three newlines or more becomes two.
unfoldable pub collapse : Text → Text
collapse [] = []
collapse (c ∷ s) = squeeze c (collapse s)

unfoldable pub normalise_whitespace : Text → Text
unfolding collapse split_on join rstrip
normalise_whitespace text = collapse (join (newline ∷ []) (map rstrip (split_on newline text)))

abbrev normalise_span : Span → Text
normalise_span span = if span.mutable then normalise_whitespace span.text else span.text

unfoldable pub normalise_code_aware : Text → Text
unfolding normalise_whitespace classify_spans concat
normalise_code_aware text = concat (map normalise_span (classify_spans text))

unfoldable pub compress : Counter → VerifySampler → CanonicalRequest → Outcome
unfolding compress_by normalise_code_aware is_lossless_equivalent
compress = compress_by "lossless" normalise_whitespace normalise_code_aware is_lossless_equivalent
