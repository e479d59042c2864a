-- ===== src/Compress/Filler.antt =====
-- compress/filler.py: whole tokens of an allow-list are dropped from the mutable spans. `lower` is
-- Python's `str.lower`.
pub mod Check
use parcus.Prelude.{ℕ, Bool, true, false, not, List, [], ◌∷◌, ◌++◌, map, if◌then◌else◌, keep_if}
use parcus.Text.{Text, codes, newline, blank, split_on, join, words, concat}
use parcus.Model.{Span, CanonicalRequest}
use parcus.Spans.{classify_spans}
use parcus.Invariants.{is_allowed, is_filler_equivalent}
use parcus.Compress.Sampling.{VerifySampler}
use parcus.Compress.Rewrite.{Counter, Outcome, compress_by}

abbrev pub default_fillers : List Text
default_fillers =
    codes "please"
    ∷ codes "kindly"
    ∷ codes "really"
    ∷ codes "very"
    ∷ codes "actually"
    ∷ codes "basically"
    ∷ codes "simply"
    ∷ codes "essentially"
    ∷ codes "literally"
    ∷ codes "honestly"
    ∷ codes "just"
    ∷ codes "quite"
    ∷ []

abbrev pub aggressive_fillers : List Text
aggressive_fillers =
    default_fillers
    ++ (codes "obviously"
        ∷ codes "clearly"
        ∷ codes "certainly"
        ∷ codes "definitely"
        ∷ codes "absolutely"
        ∷ codes "totally"
        ∷ codes "completely"
        ∷ codes "particularly"
        ∷ codes "specifically"
        ∷ codes "generally"
        ∷ codes "typically"
        ∷ codes "perhaps"
        ∷ codes "maybe"
        ∷ codes "somewhat"
        ∷ codes "rather"
        ∷ codes "fairly"
        ∷ codes "pretty"
        ∷ codes "truly"
        ∷ codes "indeed"
        ∷ codes "surely"
        ∷ codes "arguably"
        ∷ codes "presumably"
        ∷ [])

module _ (lower : Text → Text) (fillers : List Text) where
  unfoldable pub filter_line : Text → Text
  unfolding words join is_allowed
  filter_line line =
      join (blank ∷ []) (keep_if (λ t. not (is_allowed lower fillers t)) (words line))

  unfoldable pub filter_prose : Text → Text
  unfolding filter_line split_on join
  filter_prose text = join (newline ∷ []) (map filter_line (split_on newline text))

  abbrev strip_span : Span → Text
  strip_span span = if span.mutable then filter_prose span.text else span.text

  unfoldable pub strip_fillers : Text → Text
  unfolding filter_prose classify_spans concat
  strip_fillers text = concat (map strip_span (classify_spans text))

  unfoldable pub compress : Counter → VerifySampler → CanonicalRequest → Outcome
  unfolding compress_by strip_fillers is_filler_equivalent
  compress = compress_by "filler" filter_prose strip_fillers (is_filler_equivalent lower fillers)
