-- ===== src/Spans.antt =====
-- spans.py: a text is cut into mutable prose and immutable fenced code.
pub mod Cover
use mathlib.Core.Option
use parcus.Prelude.{
  ℕ, zero, suc, Bool, true, false, Option, none, some, List, [], ◌∷◌, ◌++◌, length,
}
use parcus.Text.{Text, codes, cut}
use parcus.Model.{Span}

abbrev pub ticks : Text
ticks = codes "```"

-- The leftmost match of the pattern for a fenced block: the text before it, the block, and the
-- text after it.
unfoldable pub next_fence : Text → Option (Text × Text × Text)
unfolding cut
next_fence t = elim (cut ticks t) [
  | none ↦ none
  | some (before, r) ↦ elim (cut ticks r) [
    | none ↦ none
    | some (body, rest) ↦ some (before, ticks ++ (body ++ ticks), rest)
  ]
]

abbrev prose : Text → List Span → List Span
prose [] spans = spans
prose (c ∷ t) spans = record { text = c ∷ t; mutable = true } ∷ spans

abbrev code_span : Text → Span
code_span t = record { text = t; mutable = false }

-- The loop over `finditer`. A match is not empty, so fuel above the length of the text is enough;
-- without fuel the rest of the text would be lost.
spans_from : ℕ → Text → List Span
spans_from zero t = []
spans_from (suc fuel) t = elim (next_fence t) [
  | none ↦ prose t []
  | some (before, code, rest) ↦ prose before (code_span code ∷ spans_from fuel rest)
]

abbrev or_whole : Text → List Span → List Span
or_whole t [] = record { text = t; mutable = true } ∷ []
or_whole t (s ∷ ss) = s ∷ ss

unfoldable pub classify_spans : Text → List Span
unfolding spans_from next_fence
classify_spans t = or_whole t (spans_from (suc (length t)) t)
