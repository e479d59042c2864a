-- ===== src/Compress/Rewrite.antt =====
-- What the lossless and the filler pass share: each rewrites the mutable spans of a request by one
-- function (`prose`), and its system prompt and the text blocks of structured messages by another
-- (`whole`). Beside a result stands the number of pieces that changed; a message of which nothing
-- changed is kept as it is.
pub mod Issues
pub mod Outcome
use Prim.Native.String.{String}
use parcus.Prelude.{
  ℕ, zero, ◌+◌, Bool, true, false, Option, none, some, List, [], ◌∷◌, ◌==◌, nat_eq, list_eq,
  if◌then◌else◌,
}
use parcus.Text.{Text, codes}
use parcus.Json.{Value, Items, Fields, obj, str, arr, nil, cons, get, put, is_str, as_str, as_arr}
use parcus.Model.{Span, with_text, Message, CanonicalRequest, CompressionStats, request_text}
use parcus.Compress.Sampling.{VerifySampler, should_verify}

-- The text of a `{"type": "text", "text": <str>, …}` block.
unfoldable pub block_text : Value → Option Text
unfolding get
block_text (obj fs) =
    if is_str (codes "text") (get (codes "type") fs) then as_str (get (codes "text") fs) else none
block_text _ = none

abbrev pub set_block_text : Text → Value → Value
set_block_text t (obj fs) = obj (put (codes "text") (str t) fs)
set_block_text t v = v

-- A block, and whether it was changed.
unfoldable pub rewrite_block : (Text → Text) → Value → Value × ℕ
unfolding block_text put
rewrite_block whole block = elim (block_text block) [
  | none ↦ (block, 0)
  | some t ↦ if whole t == t then (block, 0) else (set_block_text (whole t) block, 1)
]

unfoldable pub rewrite_items : (Text → Text) → Items → Items × ℕ
unfolding rewrite_block
rewrite_items whole nil = (nil, 0)
rewrite_items whole (cons block rest) =
    let (b, k) = rewrite_block whole block in
    let (bs, n) = rewrite_items whole rest in (cons b bs, k + n)

-- The dict is the old object exactly when no block was touched.
unfoldable pub rewrite_raw : (Text → Text) → Fields → Fields × ℕ
unfolding rewrite_items
rewrite_raw whole raw = elim (as_arr (get (codes "content") raw)) [
  | none ↦ (raw, 0)
  | some items ↦
      let (content, touched) = rewrite_items whole items in
      if touched == 0 then (raw, 0) else (put (codes "content") (arr content) raw, touched)
]

unfoldable pub rewrite_span : (Text → Text) → Span → Span × ℕ
unfolding with_text
rewrite_span prose span =
    if span.mutable
    then (if prose span.text == span.text then (span, 0) else (with_text span (prose span.text), 1))
    else (span, 0)

unfoldable pub rewrite_spans : (Text → Text) → List Span → List Span × ℕ
unfolding rewrite_span
rewrite_spans prose [] = ([], 0)
rewrite_spans prose (s ∷ ss) =
    let (t, k) = rewrite_span prose s in let (ts, n) = rewrite_spans prose ss in (t ∷ ts, k + n)

unfoldable pub rewrite_message : (Text → Text) → (Text → Text) → Message → Message × ℕ
unfolding rewrite_raw rewrite_spans
rewrite_message prose whole m = elim m.raw [
  | some raw ↦
      let (new_raw, touched) = rewrite_raw whole raw in
      (
        if touched == 0 then m else record { role = m.role; spans = []; raw = some new_raw },
        touched,
      )
  | none ↦
      let (spans, touched) = rewrite_spans prose m.spans in
      (record { role = m.role; spans = spans; raw = none }, touched)
]

unfoldable pub rewrite_messages : (Text → Text) → (Text → Text) → List Message → List Message × ℕ
unfolding rewrite_message
rewrite_messages prose whole [] = ([], 0)
rewrite_messages prose whole (m ∷ ms) =
    let (n, k) = rewrite_message prose whole m in
    let (ns, j) = rewrite_messages prose whole ms in (n ∷ ns, k + j)

unfoldable pub rewrite_system : (Text → Text) → Option Text → Option Text × ℕ
rewrite_system whole none = (none, 0)
rewrite_system whole (some t) = if whole t == t then (some t, 0) else (some (whole t), 1)

-- The new request is built without a cache breakpoint.
unfoldable pub rewrite_request :
    (Text → Text) → (Text → Text) → CanonicalRequest → CanonicalRequest × ℕ
unfolding rewrite_messages rewrite_system
rewrite_request prose whole r =
    let (messages, touched) = rewrite_messages prose whole r.messages in
    let (system, again) = rewrite_system whole r.system in
    (record r { messages = messages; system = system; cache_breakpoint = none }, touched + again)

-- A token counter, which may raise.
abbrev pub Counter : Type 0
Counter = Text → Value → Option ℕ

abbrev pub Outcome : Type 0
Outcome = VerifySampler × CanonicalRequest × List CompressionStats

-- `compress` of both passes, with the pass's own check of its output. If the counter raises, the
-- handler returns the original request and no statistics.
module _ (step : String) (prose whole : Text → Text)
    (check : CanonicalRequest → CanonicalRequest → Bool) where
  unfoldable pub measured : Counter → VerifySampler → CanonicalRequest → ℕ → Outcome
  unfolding rewrite_request should_verify
  measured count sampler r before =
      let (new, touched) = rewrite_request prose whole r in
      elim (count (request_text new) new.model) [
        | none ↦ (sampler, r, [])
        | some after ↦
            let (sampler', verify) = should_verify sampler in
            let ok = if verify then some (check r new) else none in
            (
              sampler',
              new,
              record {
                step = step;
                tokens_before = before;
                tokens_after = after;
                spans_touched = touched;
                ok = ok;
              }
                  ∷ [],
            )
      ]

  unfoldable pub compress_by : Counter → VerifySampler → CanonicalRequest → Outcome
  unfolding measured
  compress_by count sampler r = elim (count (request_text r) r.model) [
    | none ↦ (sampler, r, [])
    | some before ↦ measured count sampler r before
  ]
