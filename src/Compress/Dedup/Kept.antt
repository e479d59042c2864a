-- ===== src/Compress/Dedup/Kept.antt =====
-- Deduplication loses no text, and shortens the request with every replaced block.
use parcus.Prelude.{
  ℕ, ◌+◌, ◌≤◌, ◌<◌, true, none, some, List, [], ◌∷◌, ◌++◌, ◌≡◌, ◌⊎◌, refl, inl, inr, length,
  contains, arith, Option-cases, nat_eq, list_eq, list_beq_iff, if◌then◌else◌,
}
use parcus.Text.{Text}
use parcus.Model.{Span, Message, CanonicalRequest}
use parcus.Compress.Rewrite.{Counter}
use parcus.Compress.Dedup.{
  DedupCompressor, new_dedup, dedup_span, dedup_spans, dedup_message, dedup_messages, compress,
}

-- The texts of the spans of the plain messages.
abbrev pub texts : List Span → List Text
texts [] = []
texts (s ∷ ss) = s.text ∷ texts ss

-- The text is among those seen before, or among those that are kept.
abbrev Found : Text → List Text → List Text → Type 0
Found t seen out = (contains t seen ≡ true) ⊎ (contains t out ≡ true)

abbrev message_texts : Message → List Text
message_texts m = elim m.raw [ none ↦ texts m.spans | some _ ↦ [] ]

abbrev pub plain_texts : List Message → List Text
plain_texts [] = []
plain_texts (m ∷ ms) = message_texts m ++ plain_texts ms

-- The characters of the texts.
abbrev pub size : List Text → ℕ
size [] = 0
size (t ∷ ts) = length t + size ts

size-append : (xs ys : List Text) → size (xs ++ ys) ≡ size xs + size ys
size-append [] ys = omega arith
size-append (x ∷ xs) ys = omega (arith, size-append xs ys)

contains-append :
    (t : Text) (xs ys : List Text)
    → contains t (xs ++ ys) ≡ (if contains t xs then true else contains t ys)
contains-append t [] ys = refl
contains-append t (x ∷ xs) ys = ground (arith, contains-append t xs ys)

module _ (d : DedupCompressor) where
  -- What was seen earlier or is a text of the input is found: among the texts seen before the call
  -- or in its output.
  dedup_span-Found :
      (t : Text) (seen : List Text) (s : Span)
      → Found t (dedup_span d seen s).1 (s.text ∷ [])
      → Found t seen ((dedup_span d seen s).0.text ∷ [])
  unfolding dedup_span
  dedup_span-Found t seen s h = ground (arith, list_beq_iff t s.text)

  dedup_spans-Found :
      (t : Text) (seen : List Text) (ss : List Span)
      → Found t (dedup_spans d seen ss).1 (texts ss)
      → Found t seen (texts (dedup_spans d seen ss).0)
  unfolding dedup_spans
  dedup_spans-Found t seen [] h = h
  dedup_spans-Found t seen (s ∷ ss) h =
      ground (arith, dedup_span-Found t seen s, dedup_spans-Found t (dedup_span d seen s).1 ss)

  dedup_message-Found :
      (t : Text) (seen : List Text) (m : Message)
      → Found t (dedup_message d seen m).1 (message_texts m)
      → Found t seen (message_texts (dedup_message d seen m).0)
  unfolding dedup_message
  dedup_message-Found t seen m h = elim (Option-cases m.raw) [
    | inl e ↦ ground (arith, dedup_spans-Found t seen m.spans)
    | inr (raw, e) ↦ ground arith
  ]

  dedup_messages-Found :
      (t : Text) (seen : List Text) (ms : List Message)
      → Found t (dedup_messages d seen ms).1 (plain_texts ms)
      → Found t seen (plain_texts (dedup_messages d seen ms).0)
  unfolding dedup_messages
  dedup_messages-Found t seen [] h = h
  dedup_messages-Found t seen (m ∷ ms) h =
      let seen' = (dedup_message d seen m).1 in
      let n = (dedup_message d seen m).0 in
      ground (
        arith,
        dedup_message-Found t seen m,
        dedup_messages-Found t seen' ms,
        contains-append t (message_texts m) (plain_texts ms),
        contains-append t (message_texts n) (plain_texts (dedup_messages d seen' ms).0),
      )

  -- Every text of a plain message is still the text of some span after the pass.
  pub compress-plain_texts :
      (count : Counter) (r : CanonicalRequest) (t : Text)
      → contains t (plain_texts r.messages) ≡ true
      → contains t (plain_texts (compress d count r).0.messages) ≡ true
  unfolding compress
  compress-plain_texts count r t h = ground (arith, dedup_messages-Found t [] r.messages)

  module _ (longer : length d.marker < d.min_chars) where
    size-dedup_span :
        (seen : List Text) (s : Span)
        → length (dedup_span d seen s).0.text + (dedup_span d seen s).2 ≤ length s.text
    unfolding dedup_span
    size-dedup_span seen s = ground arith

    size-dedup_spans :
        (seen : List Text) (ss : List Span)
        → size (texts (dedup_spans d seen ss).0) + (dedup_spans d seen ss).2 ≤ size (texts ss)
    unfolding dedup_spans
    size-dedup_spans seen [] = omega arith
    size-dedup_spans seen (s ∷ ss) =
        omega (arith, size-dedup_span seen s, size-dedup_spans (dedup_span d seen s).1 ss)

    size-dedup_message :
        (seen : List Text) (m : Message)
        → size (message_texts (dedup_message d seen m).0) + (dedup_message d seen m).2
          ≤ size (message_texts m)
    unfolding dedup_message
    size-dedup_message seen m = ground (arith, size-dedup_spans seen m.spans)

    size-dedup_messages :
        (seen : List Text) (ms : List Message)
        → size (plain_texts (dedup_messages d seen ms).0) + (dedup_messages d seen ms).2
          ≤ size (plain_texts ms)
    unfolding dedup_messages
    size-dedup_messages seen [] = omega arith
    size-dedup_messages seen (m ∷ ms) =
        let seen' = (dedup_message d seen m).1 in
        let n = (dedup_message d seen m).0 in
        omega (
          arith,
          size-dedup_message seen m,
          size-dedup_messages seen' ms,
          size-append (message_texts m) (plain_texts ms),
          size-append (message_texts n) (plain_texts (dedup_messages d seen' ms).0),
        )

    size-compress :
        (count : Counter) (r : CanonicalRequest)
        → (compress d count r ≡ (r, []))
          ⊎ (size (plain_texts (compress d count r).0.messages) < size (plain_texts r.messages))
    unfolding compress
    size-compress count r = ground (arith, size-dedup_messages [] r.messages)

-- For every configuration: either the pass returns the request unchanged and without statistics, or
-- the plain messages have strictly fewer characters than before.
pub new_dedup-size-compress :
    (min_chars : ℕ) (marker : Text) (count : Counter) (r : CanonicalRequest)
    → (compress (new_dedup min_chars marker) count r ≡ (r, []))
      ⊎ (size (plain_texts (compress (new_dedup min_chars marker) count r).0.messages)
          < size (plain_texts r.messages))
unfolding new_dedup
new_dedup-size-compress min_chars marker = size-compress _ (omega arith)
