-- ===== src/Compress/Learned.antt =====
-- compress/learned.py: what a local model takes for uninformative is dropped from the mutable spans.
-- The reducer is a parameter, with its ratio already given, and it may raise, like the token counter:
-- `none` is the exception, which `compress` turns into the request as it was.
pub mod Kept
use parcus.Prelude.{
  ℕ, zero, ◌+◌, ◌>>=◌, Bool, true, false, Option, none, some, List, [], ◌∷◌, ◌==◌, nat_eq, list_eq,
  if◌then◌else◌,
}
use parcus.Text.{Text, codes, concat}
use parcus.Json.{Value, Items, Fields, arr, nil, cons, get, put, as_arr}
use parcus.Model.{Span, with_text, Message, CanonicalRequest, CompressionStats, request_text}
use parcus.Spans.{classify_spans}
use parcus.Compress.Rewrite.{block_text, set_block_text, Counter}

module _ (reduce : Text → Option Text) where
  unfoldable pub reduce_all : List Span → Option (List Text)
  reduce_all [] = some []
  reduce_all (span ∷ spans) = do
    text ← if span.mutable then reduce span.text else some span.text
    texts ← reduce_all spans
    some (text ∷ texts)

  -- `_reduce_prose`
  unfoldable pub reduce_prose : Text → Option Text
  unfolding reduce_all classify_spans concat
  reduce_prose text = do texts ← reduce_all (classify_spans text); some (concat texts)

  unfoldable pub reduce_block : Value → Option (Value × ℕ)
  unfolding reduce_prose block_text put
  reduce_block block = elim (block_text block) [
    | none ↦ some (block, 0)
    | some t ↦ do
      reduced ← reduce_prose t
      some (if reduced == t then (block, 0) else (set_block_text reduced block, 1))
  ]

  unfoldable pub reduce_items : Items → Option (Items × ℕ)
  unfolding reduce_block
  reduce_items nil = some (nil, 0)
  reduce_items (cons block rest) = do
    first ← reduce_block block
    others ← reduce_items rest
    some (cons first.0 others.0, first.1 + others.1)

  -- `_reduce_text_blocks`
  unfoldable pub reduce_text_blocks : Fields → Option (Fields × ℕ)
  unfolding reduce_items get put
  reduce_text_blocks raw = elim (as_arr (get (codes "content") raw)) [
    | none ↦ some (raw, 0)
    | some items ↦ do
      content ← reduce_items items
      some (
          if content.1 == 0
          then (raw, 0)
          else (put (codes "content") (arr content.0) raw, content.1))
  ]

  unfoldable pub reduce_span : Span → Option (Span × ℕ)
  unfolding with_text
  reduce_span span =
      if span.mutable
      then (do
        reduced ← reduce span.text
        some (if reduced == span.text then (span, 0) else (with_text span reduced, 1)))
      else some (span, 0)

  unfoldable pub reduce_spans : List Span → Option (List Span × ℕ)
  unfolding reduce_span
  reduce_spans [] = some ([], 0)
  reduce_spans (span ∷ spans) = do
    first ← reduce_span span
    others ← reduce_spans spans
    some (first.0 ∷ others.0, first.1 + others.1)

  unfoldable pub reduce_message : Message → Option (Message × ℕ)
  unfolding reduce_text_blocks reduce_spans
  reduce_message m = elim m.raw [
    | some raw ↦ do
      changed ← reduce_text_blocks raw
      some (
        if changed.1 == 0 then m else record { role = m.role; spans = []; raw = some changed.0 },
        changed.1,
      )
    | none ↦ do
      spans ← reduce_spans m.spans
      some (record { role = m.role; spans = spans.0; raw = none }, spans.1)
  ]

  unfoldable pub reduce_messages : List Message → Option (List Message × ℕ)
  unfolding reduce_message
  reduce_messages [] = some ([], 0)
  reduce_messages (m ∷ ms) = do
    first ← reduce_message m
    others ← reduce_messages ms
    some (first.0 ∷ others.0, first.1 + others.1)

  unfoldable pub reduce_system : Option Text → Option (Option Text × ℕ)
  unfolding reduce_prose
  reduce_system none = some (none, 0)
  reduce_system (some t) = do
    rebuilt ← reduce_prose t
    some (if rebuilt == t then (some t, 0) else (some rebuilt, 1))

  -- The new request, without a cache breakpoint, and the number of pieces that changed.
  unfoldable pub reduce_request : CanonicalRequest → Option (CanonicalRequest × ℕ)
  unfolding reduce_messages reduce_system
  reduce_request r = do
    messages ← reduce_messages r.messages
    system ← reduce_system r.system
    some (
      record r { messages = messages.0; system = system.0; cache_breakpoint = none },
      messages.1 + system.1,
    )

  unfoldable pub attempt :
      Counter → CanonicalRequest → Option (CanonicalRequest × List CompressionStats)
  unfolding reduce_request request_text
  attempt count r = do
    before ← count (request_text r) r.model
    new ← reduce_request r
    after ← count (request_text new.0) new.0.model
    some (
      new.0,
      record {
        step = "learned";
        tokens_before = before;
        tokens_after = after;
        spans_touched = new.1;
        ok = none;
      }
          ∷ [],
    )

  unfoldable pub compress : Counter → CanonicalRequest → CanonicalRequest × List CompressionStats
  unfolding attempt
  compress count r = elim (attempt count r) [ none ↦ (r, []) | some done ↦ done ]
