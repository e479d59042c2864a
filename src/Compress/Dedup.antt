-- ===== src/Compress/Dedup.antt =====
-- compress/dedup.py: a later copy of a large block becomes a reference to the first.
pub mod Kept
use Prim.Native.String.{String}
use parcus.Prelude.{
  ℕ, suc, ◌+◌, Bool, true, false, Option, none, some, List, [], ◌∷◌, length, contains, leb, max,
  nat_eq, list_eq, ◌==◌, if◌then◌else◌,
}
use parcus.Text.{Text, codes}
use parcus.Model.{Span, Message, CanonicalRequest, CompressionStats, request_text}
use parcus.Compress.Rewrite.{Counter}

abbrev pub default_marker : Text
default_marker = codes "[identical block above — deduplicated by parcus]"

pub record DedupCompressor : Type 0 where
  pub marker : Text
  pub min_chars : ℕ

-- `__init__`: a block that is replaced is longer than the marker.
unfoldable pub new_dedup : ℕ → Text → DedupCompressor
new_dedup min_chars marker = record {
  marker = marker;
  min_chars = max min_chars (length marker + 1);
}

module _ (d : DedupCompressor) where
  -- The span that is kept, the texts seen so far, and 1 for a replaced span.
  unfoldable pub dedup_span : List Text → Span → Span × List Text × ℕ
  dedup_span seen span =
      if leb d.min_chars (length span.text)
      then (if contains span.text seen
          then (record { text = d.marker; mutable = false }, seen, 1)
          else (span, span.text ∷ seen, 0))
      else (span, seen, 0)

  unfoldable pub dedup_spans : List Text → List Span → List Span × List Text × ℕ
  unfolding dedup_span
  dedup_spans seen [] = ([], seen, 0)
  dedup_spans seen (s ∷ ss) =
      let (t, seen', k) = dedup_span seen s in
      let (ts, seen'', n) = dedup_spans seen' ss in (t ∷ ts, seen'', k + n)

  unfoldable pub dedup_message : List Text → Message → Message × List Text × ℕ
  unfolding dedup_spans
  dedup_message seen m = elim m.raw [
    | some _ ↦ (m, seen, 0)
    | none ↦
        let (spans, seen', n) = dedup_spans seen m.spans in
        (record { role = m.role; spans = spans; raw = none }, seen', n)
  ]

  unfoldable pub dedup_messages : List Text → List Message → List Message × List Text × ℕ
  unfolding dedup_message
  dedup_messages seen [] = ([], seen, 0)
  dedup_messages seen (m ∷ ms) =
      let (n, seen', k) = dedup_message seen m in
      let (ns, seen'', j) = dedup_messages seen' ms in (n ∷ ns, seen'', k + j)

  unfoldable pub compress : Counter → CanonicalRequest → CanonicalRequest × List CompressionStats
  unfolding dedup_messages
  compress count r =
      let (messages, _, touched) = dedup_messages [] r.messages in
      let new = record r { messages = messages } in
      elim (count (request_text r) r.model) [
        | none ↦ (r, [])
        | some before ↦
            if touched == 0 then (r, []) else elim (count (request_text new) new.model) [
              | none ↦ (r, [])
              | some after ↦ (
                new,
                record {
                  step = "dedup";
                  tokens_before = before;
                  tokens_after = after;
                  spans_touched = touched;
                  ok = none;
                }
                    ∷ [],
              )
            ]
      ]
