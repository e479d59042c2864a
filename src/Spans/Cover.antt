-- ===== src/Spans/Cover.antt =====
-- The spans of a text cover it, and each is what its flag says.
use mathlib.Core.List.{append_assoc, append-nil}
use mathlib.Core.Path.{subst}
use parcus.Prelude.{
  ℕ, zero, suc, ◌<◌, Bool, true, false, none, some, List, [], ◌∷◌, ◌++◌, map, ◌≡◌, ◌≢◌, refl, ap,
  sym, ◌∙◌, inl, inr, length, length-append, All, arith, nat_eq, Option-cases,
}
use parcus.Text.{Text, after_prefix, cut, concat}
use parcus.Model.{Span}
use parcus.Spans.{ticks, next_fence, prose, code_span, spans_from, or_whole, classify_spans}

after_prefix-eq : (p s r : Text) → after_prefix p s ≡ some r → s ≡ p ++ r
unfolding after_prefix
after_prefix-eq [] s r h = cc
after_prefix-eq (x ∷ p) [] r h = cc
after_prefix-eq (x ∷ p) (c ∷ s) r h = ground (arith, after_prefix-eq p s r)

after_prefix-append :
    (p s t r : Text) → after_prefix p s ≡ some r → after_prefix p (s ++ t) ≡ some (r ++ t)
unfolding after_prefix
after_prefix-append [] s t r h = cc
after_prefix-append (x ∷ p) [] t r h = cc
after_prefix-append (x ∷ p) (c ∷ s) t r h = ground (arith, after_prefix-append p s t r)

-- What `cut` finds is there, and not earlier.
pub cut-eq : (sep t a b : Text) → cut sep t ≡ some (a, b) → t ≡ a ++ (sep ++ b)
unfolding cut
cut-eq sep [] a b h = elim (Option-cases (after_prefix sep [])) [
  | inl e ↦ absurd (ground arith)
  | inr (r, e) ↦ ground (arith, after_prefix-eq sep [] r)
]
cut-eq sep (c ∷ s) a b h = elim (Option-cases (after_prefix sep (c ∷ s))) [
  | inl e ↦ elim (Option-cases (cut sep s)) [
    | inl f ↦ absurd (ground arith)
    | inr ((a', b'), f) ↦ ground (arith, cut-eq sep s a' b')
  ]
  | inr (r, e) ↦ ground (arith, after_prefix-eq sep (c ∷ s) r)
]

pub cut_before : (x : ℕ) (p t a b : Text) → cut (x ∷ p) t ≡ some (a, b) → cut (x ∷ p) a ≡ none
unfolding cut
cut_before x p [] a b h = absurd (ground arith)
cut_before x p (c ∷ s) a b h = elim (Option-cases (after_prefix (x ∷ p) (c ∷ s))) [
  | inr (r, e) ↦ ground arith
  | inl e ↦ elim (Option-cases (cut (x ∷ p) s)) [
    | inl f ↦ absurd (ground arith)
    | inr ((a', b'), f) ↦ elim (Option-cases (after_prefix (x ∷ p) (c ∷ a'))) [
      | inl g ↦ ground (arith, cut_before x p s a' b')
      | inr (r, g) ↦ absurd (
          ground
            (arith, cut-eq (x ∷ p) s a' b', after_prefix-append (x ∷ p) (c ∷ a') ((x ∷ p) ++ b') r))
    ]
  ]
]

-- What the loop relies on: a match splits the text, and its parts hold no other match.
pub record IsFence (t before code rest : Text) : Type 0 where
  pub whole : t ≡ before ++ (code ++ rest)
  pub body : Text
  pub fenced : code ≡ ticks ++ (body ++ ticks)
  pub body_plain : cut ticks body ≡ none
  pub before_plain : cut ticks before ≡ none

regroup_fence :
    (a body rest : Text)
    → a ++ (ticks ++ (body ++ (ticks ++ rest))) ≡ a ++ ((ticks ++ (body ++ ticks)) ++ rest)
regroup_fence a body rest = simp append_assoc

next_fence-IsFence :
    (t before code rest : Text)
    → next_fence t ≡ some (before, code, rest)
    → IsFence t before code rest
unfolding next_fence
next_fence-IsFence t before code rest h = elim (Option-cases (cut ticks t)) [
  | inl e ↦ absurd (ground arith)
  | inr ((a, r), e) ↦ elim (Option-cases (cut ticks r)) [
    | inl f ↦ absurd (ground arith)
    | inr ((body, u), f) ↦ record {
      whole = ground (arith, cut-eq ticks t a r, cut-eq ticks r body u, regroup_fence a body u);
      body = body;
      fenced = ground arith;
      body_plain = cut_before 96 (96 ∷ 96 ∷ []) r body u f;
      before_plain = ground (arith, cut_before 96 (96 ∷ 96 ∷ []) t a r);
    }
  ]
]

length-rest : (t before code rest : Text) → IsFence t before code rest → length rest < length t
length-rest t before code rest h = omega (
  arith,
  ap length h.whole,
  ap length h.fenced,
  length-append before (code ++ rest),
  length-append code rest,
)

abbrev pub span_text : Span → Text
span_text s = s.text

-- Prose holds no fenced block; a code span is one block.
abbrev pub PieceText : Bool → Text → Type 0
PieceText true t = next_fence t ≡ none
PieceText false t = (body : Text) × (t ≡ ticks ++ (body ++ ticks)) × (cut ticks body ≡ none)

abbrev pub IsPiece : Span → Type 0
IsPiece s = PieceText s.mutable s.text

next_fence_plain : (t : Text) → cut ticks t ≡ none → next_fence t ≡ none
unfolding next_fence
next_fence_plain t h = rw (h, next_fence)

concat-prose :
    (t : Text) (ss : List Span)
    → concat (map span_text (prose t ss)) ≡ t ++ concat (map span_text ss)
unfolding concat
concat-prose [] ss = refl
concat-prose (c ∷ t) ss = refl

All-prose :
    (t : Text) (ss : List Span) → next_fence t ≡ none → All IsPiece ss → All IsPiece (prose t ss)
All-prose [] ss h k = k
All-prose (c ∷ t) ss h k = (h, k)

concat_code :
    (code : Text) (ss : List Span)
    → concat (map span_text (code_span code ∷ ss)) ≡ code ++ concat (map span_text ss)
unfolding concat
concat_code code ss = refl

-- With fuel above its length, nothing of the text is lost.
concat-spans_from :
    (fuel : ℕ) (t : Text) → length t < fuel → concat (map span_text (spans_from fuel t)) ≡ t
unfolding spans_from
concat-spans_from zero t h = absurd (omega arith)
concat-spans_from (suc fuel) t h = elim (Option-cases (next_fence t)) [
  | inl e ↦ rw (e, spans_from) (concat-prose t [] ∙ unfold concat in append-nil t)
  | inr ((before, code, rest), e) ↦
      let f = next_fence-IsFence t before code rest e in
      let ih = concat-spans_from fuel rest (omega (arith, length-rest t before code rest f)) in
      rw (e, spans_from)
        (concat-prose before (code_span code ∷ spans_from fuel rest)
          ∙ ap (λ u. before ++ u) (concat_code code (spans_from fuel rest) ∙ ap (λ u. code ++ u) ih)
          ∙ sym f.whole)
]

All-spans_from : (fuel : ℕ) (t : Text) → All IsPiece (spans_from fuel t)
unfolding spans_from
All-spans_from zero t = tt
All-spans_from (suc fuel) t = elim (Option-cases (next_fence t)) [
  | inl e ↦ rw (e, spans_from) (All-prose t [] e tt)
  | inr ((before, code, rest), e) ↦
      let f = next_fence-IsFence t before code rest e in
      rw (e, spans_from)
        (All-prose before _ (next_fence_plain before f.before_plain)
          ((f.body, f.fenced, f.body_plain), All-spans_from fuel rest))
]

concat_whole :
    (t : Text) (ss : List Span)
    → concat (map span_text ss) ≡ t
    → concat (map span_text (or_whole t ss)) ≡ t
concat_whole t [] h = unfold concat in append-nil t
concat_whole t (s ∷ ss) h = h

All-or_whole :
    (t : Text) (ss : List Span)
    → concat (map span_text ss) ≡ t
    → All IsPiece ss
    → All IsPiece (or_whole t ss)
All-or_whole t [] h k =
    (subst (λ u. next_fence u ≡ none) h (unfold concat next_fence cut in refl), tt)
All-or_whole t (s ∷ ss) h k = k

or_whole-ne-nil : (t : Text) (ss : List Span) → or_whole t ss ≢ []
or_whole-ne-nil t [] h = cc
or_whole-ne-nil t (s ∷ ss) h = cc

-- For every text: the spans are not empty, their concatenation is the text, a mutable span holds no
-- complete fenced block, and an immutable span is exactly one fenced block, whose body has no
-- closing fence inside.
pub classify_spans_correct :
    (t : Text)
    → (classify_spans t ≢ [])
      × (concat (map span_text (classify_spans t)) ≡ t)
      × All IsPiece (classify_spans t)
unfolding classify_spans
classify_spans_correct t =
    let covered = concat-spans_from (suc (length t)) t (omega arith) in
    (
      or_whole-ne-nil t _,
      concat_whole t (spans_from (suc (length t)) t) covered,
      All-or_whole t (spans_from (suc (length t)) t) covered (All-spans_from (suc (length t)) t),
    )

or_whole-prose : (t : Text) → or_whole t (prose t []) ≡ record { text = t; mutable = true } ∷ []
or_whole-prose [] = refl
or_whole-prose (c ∷ t) = refl

pub classify_spans_plain :
    (t : Text) → next_fence t ≡ none → classify_spans t ≡ record { text = t; mutable = true } ∷ []
unfolding classify_spans
classify_spans_plain t h = rw (h, spans_from) (or_whole-prose t)
