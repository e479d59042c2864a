-- ===== src/Compress/Learned/Kept.antt =====
-- compress/learned.py: a call either raises or rewrites as the other passes do, with the reducer in
-- place of their own rewriting.
use parcus.Prelude.{
  ℕ, Yields, Yields-bind, ◌≡◌, ◌⊎◌, refl, ◌∙◌, true, Option, none, some, List, [], ◌∷◌, All, map,
  or_else, inl, inr, Bool-cases, Option-cases, nat_eq, list_eq, if◌then◌else◌,
}
use parcus.Text.{Text, codes, concat}
use parcus.Json.{Value, Items, Fields, nil, cons, get, as_arr}
use parcus.Model.{Span, Message, CanonicalRequest, CompressionStats, request_text}
use parcus.Spans.{classify_spans}
use parcus.Invariants.{violations}
use parcus.Compress.Rewrite.{
  Counter, block_text, rewrite_block, rewrite_items, rewrite_raw, rewrite_span, rewrite_spans,
  rewrite_message, rewrite_messages, rewrite_system, rewrite_request,
}
use parcus.Compress.Rewrite.Issues.{
  IsParsed, IsSafe, violations-rewrite_request, IsSafe-system_issues, violations_self,
}
use parcus.Compress.Learned.{
  reduce_all, reduce_prose, reduce_block, reduce_items, reduce_text_blocks, reduce_span,
  reduce_spans, reduce_message, reduce_messages, reduce_system, reduce_request, attempt, compress,
}

-- The check of a rewritten request finds nothing, whatever became of the mutable text.
abbrev pub IsSameShape : CanonicalRequest → CanonicalRequest → Type 0
IsSameShape o c = violations (λ a b. true) o c ≡ []

-- The token counter raises on some text.
abbrev pub CounterRaised : Counter → Type 0
CounterRaised count = (t : Text) × (model : Value) × (count t model ≡ none)

module _ (reduce : Text → Option Text) where
  -- The reducer raises on some text.
  abbrev pub Raised : Type 0
  Raised = (t : Text) × (reduce t ≡ none)

  -- What the reducer makes of a text, and of the mutable spans of one; where it raises, the text.
  abbrev pub prose : Text → Text
  prose t = or_else t (reduce t)

  abbrev prose_span : Span → Text
  prose_span span = if span.mutable then prose span.text else span.text

  unfoldable pub whole : Text → Text
  unfolding concat classify_spans
  whole text = concat (map prose_span (classify_spans text))

  reduce_text : (t : Text) → Yields Raised (reduce t) (prose t)
  reduce_text t = elim (Option-cases (reduce t)) [
    | inl e ↦ inl (e, (t, e))
    | inr (u, e) ↦ inr (rw e refl)
  ]

  span_text :
      (span : Span)
      → Yields Raised (if span.mutable then reduce span.text else some span.text) (prose_span span)
  span_text span = elim (Bool-cases span.mutable) [
    | inl m ↦ rw m (reduce_text span.text)
    | inr m ↦ rw m (inr refl)
  ]

  reduce_all-map :
      (spans : List Span) → Yields Raised (reduce_all reduce spans) (map prose_span spans)
  unfolding reduce_all
  reduce_all-map [] = inr refl
  reduce_all-map (span ∷ spans) =
      Yields-bind _ (span_text span) (Yields-bind _ (reduce_all-map spans) (inr refl))

  reduce_prose-whole : (t : Text) → Yields Raised (reduce_prose reduce t) (whole t)
  unfolding reduce_prose whole
  reduce_prose-whole t = Yields-bind _ (reduce_all-map (classify_spans t)) (inr refl)

  reduce_block-rewrite :
      (block : Value) → Yields Raised (reduce_block reduce block) (rewrite_block whole block)
  unfolding reduce_block rewrite_block
  reduce_block-rewrite block = elim (Option-cases (block_text block)) [
    | inl e ↦ rw (e, reduce_block, rewrite_block) (inr refl)
    | inr (t, e) ↦
        rw (e, reduce_block, rewrite_block) (Yields-bind _ (reduce_prose-whole t) (inr refl))
  ]

  reduce_items-rewrite :
      (items : Items) → Yields Raised (reduce_items reduce items) (rewrite_items whole items)
  unfolding reduce_items rewrite_items
  reduce_items-rewrite nil = inr refl
  reduce_items-rewrite (cons block rest) =
      Yields-bind _ (reduce_block-rewrite block)
        (Yields-bind _ (reduce_items-rewrite rest) (inr refl))

  reduce_text_blocks-rewrite :
      (raw : Fields) → Yields Raised (reduce_text_blocks reduce raw) (rewrite_raw whole raw)
  unfolding reduce_text_blocks rewrite_raw
  reduce_text_blocks-rewrite raw = elim (Option-cases (as_arr (get (codes "content") raw))) [
    | inl e ↦ rw (e, reduce_text_blocks, rewrite_raw) (inr refl)
    | inr (items, e) ↦
        rw (e, reduce_text_blocks, rewrite_raw)
          (Yields-bind _ (reduce_items-rewrite items) (inr refl))
  ]

  reduce_span-rewrite :
      (span : Span) → Yields Raised (reduce_span reduce span) (rewrite_span prose span)
  unfolding reduce_span rewrite_span
  reduce_span-rewrite span = elim (Bool-cases span.mutable) [
    | inl m ↦ rw m (Yields-bind _ (reduce_text span.text) (inr refl))
    | inr m ↦ rw m (inr refl)
  ]

  reduce_spans-rewrite :
      (spans : List Span) → Yields Raised (reduce_spans reduce spans) (rewrite_spans prose spans)
  unfolding reduce_spans rewrite_spans
  reduce_spans-rewrite [] = inr refl
  reduce_spans-rewrite (span ∷ spans) =
      Yields-bind _ (reduce_span-rewrite span)
        (Yields-bind _ (reduce_spans-rewrite spans) (inr refl))

  reduce_message-rewrite :
      (m : Message) → Yields Raised (reduce_message reduce m) (rewrite_message prose whole m)
  unfolding reduce_message rewrite_message
  reduce_message-rewrite m = elim (Option-cases m.raw) [
    | inl e ↦
        rw (e, reduce_message, rewrite_message)
          (Yields-bind _ (reduce_spans-rewrite m.spans) (inr refl))
    | inr (raw, e) ↦
        rw (e, reduce_message, rewrite_message)
          (Yields-bind _ (reduce_text_blocks-rewrite raw) (inr refl))
  ]

  reduce_messages-rewrite :
      (ms : List Message)
      → Yields Raised (reduce_messages reduce ms) (rewrite_messages prose whole ms)
  unfolding reduce_messages rewrite_messages
  reduce_messages-rewrite [] = inr refl
  reduce_messages-rewrite (m ∷ ms) =
      Yields-bind _ (reduce_message-rewrite m)
        (Yields-bind _ (reduce_messages-rewrite ms) (inr refl))

  reduce_system-rewrite :
      (t : Option Text) → Yields Raised (reduce_system reduce t) (rewrite_system whole t)
  unfolding reduce_system rewrite_system
  reduce_system-rewrite none = inr refl
  reduce_system-rewrite (some t) = Yields-bind _ (reduce_prose-whole t) (inr refl)

  reduce_request-rewrite :
      (r : CanonicalRequest)
      → Yields Raised (reduce_request reduce r) (rewrite_request prose whole r)
  unfolding reduce_request rewrite_request
  reduce_request-rewrite r =
      Yields-bind _ (reduce_messages-rewrite r.messages)
        (Yields-bind _ (reduce_system-rewrite r.system) (inr refl))

  any-IsSafe : (t : Option Text) → IsSafe (λ o c. true) whole t
  any-IsSafe none = tt
  any-IsSafe (some t) = refl

  rewrite_request-IsSameShape :
      (r : CanonicalRequest)
      → All IsParsed r.messages
      → IsSameShape r (rewrite_request prose whole r).0
  rewrite_request-IsSameShape r h =
      violations-rewrite_request (λ o c. true) prose whole (λ t. refl) (λ t. refl) r h
      ∙ IsSafe-system_issues (λ o c. true) prose whole (λ t. refl) (λ t. refl) r.system
          (any-IsSafe r.system)

  attempt-cases :
      (count : Counter) (r : CanonicalRequest)
      → ((attempt reduce count r ≡ none) × (Raised ⊎ CounterRaised count))
        ⊎ ((s : CompressionStats) × (attempt reduce count r
              ≡ some ((rewrite_request prose whole r).0, s ∷ []))
            × (s.ok ≡ none)
            × (s.spans_touched ≡ (rewrite_request prose whole r).1))
  unfolding attempt
  attempt-cases count r =
      let new : CanonicalRequest = (rewrite_request prose whole r).0 in
      elim (Option-cases (count (request_text r) r.model)) [
        | inl e ↦ inl (rw (e, attempt) refl, inr (request_text r, r.model, e))
        | inr (before, e) ↦ elim (reduce_request-rewrite r) [
          | inl (f, why) ↦ inl (rw (e, attempt) (rw f refl), inl why)
          | inr f ↦ elim (Option-cases (count (request_text new) new.model)) [
            | inl g ↦ inl (rw (e, attempt) (rw f (rw g refl)), inr (request_text new, new.model, g))
            | inr (after, g) ↦
                inr (stats before after, rw (e, attempt) (rw f (rw g refl)), refl, refl)
          ]
        ]
      ]
    where
      stats : ℕ → ℕ → CompressionStats
      stats before after = record {
        step = "learned";
        tokens_before = before;
        tokens_after = after;
        spans_touched = (rewrite_request prose whole r).1;
        ok = none;
      }

  -- The learned pass returns the request itself, without statistics, only if the reducer or the token
  -- counter raises on some text. If neither does, it returns the request as the reducer rewrites its mutable spans, its
  -- system prompt and the text blocks of its structured messages, with statistics that claim no
  -- check. In both cases the messages keep their number, roles and spans, and each immutable span its
  -- text. No structured message has spans.
  pub compress-IsSameShape :
      (count : Counter) (r : CanonicalRequest)
      → All IsParsed r.messages
      → IsSameShape r (compress reduce count r).0
        × (((compress reduce count r ≡ (r, [])) × (Raised ⊎ CounterRaised count))
            ⊎ ((s : CompressionStats) × (compress reduce count r
                  ≡ ((rewrite_request prose whole r).0, s ∷ []))
                × (s.ok ≡ none)
                × (s.spans_touched ≡ (rewrite_request prose whole r).1)))
  unfolding compress
  compress-IsSameShape count r h = elim (attempt-cases count r) [
    | inl (e, why) ↦
        rw (e, compress)
          (violations_self (λ o c. true) prose whole (λ t. refl) (λ t. refl) r, inl (refl, why))
    | inr (s, e, ok, n) ↦ rw (e, compress) (rewrite_request-IsSameShape r h, inr (s, refl, ok, n))
  ]
