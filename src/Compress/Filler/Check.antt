-- ===== src/Compress/Filler/Check.antt =====
-- The filler pass against its own check.
use mathlib.Core.List.{append-nil}
use parcus.Prelude.{
  Bool, true, false, not, Option, none, some, List, [], ◌∷◌, map, ◌≡◌, ◌≢◌, refl, ap, sym, ◌∙◌, All,
  is_empty, keep_if, keep_if-append, concat_map,
}
use parcus.Text.{Text, newline, is_space, split_on, words}
use parcus.Text.Words.{words-join, words-join-keep_if}
use parcus.Text.Lines.{join-split_on}
use parcus.Model.{CanonicalRequest}
use parcus.Spans.{next_fence}
use parcus.Spans.Cover.{classify_spans_plain}
use parcus.Invariants.{is_allowed, removed_only_allowed, filler_violations, is_filler_equivalent}
use parcus.Invariants.Deletes.{Deletes-keep_if, Deletes_refl, removed_only_allowed_iff}
use parcus.Compress.Sampling.{VerifySampler}
use parcus.Compress.Rewrite.{Counter, rewrite_request}
use parcus.Compress.Rewrite.Issues.{
  IsParsed, IsSafe, violations_self, violations-rewrite_request, IsSafe-system_issues,
}
use parcus.Compress.Rewrite.Outcome.{compress_by_accepted}
use parcus.Compress.Lossless.Check.{PlainSystem}
use parcus.Compress.Filler.{filter_line, filter_prose, strip_fillers, compress}

newline-is_space : is_space newline ≡ true
unfolding is_space
newline-is_space = refl

module _ (lower : Text → Text) (fillers : List Text) where
  -- The tokens that stay.
  abbrev pub kept : Text → Bool
  kept t = not (is_allowed lower fillers t)

  words-filter_line : (l : Text) → words (filter_line lower fillers l) ≡ keep_if kept (words l)
  unfolding filter_line
  words-filter_line l = words-join-keep_if kept l

  concat_map-filter_line :
      (ls : List Text)
      → concat_map words (map (filter_line lower fillers) ls) ≡ keep_if kept (concat_map words ls)
  concat_map-filter_line [] = refl
  concat_map-filter_line (l ∷ ls) =
      rw (words-filter_line l, concat_map-filter_line ls) (sym (keep_if-append kept (words l) _))

  -- The words of the filtered prose are the words of the original that are no fillers, in order.
  pub words-filter_prose :
      (t : Text) → words (filter_prose lower fillers t) ≡ keep_if kept (words t)
  unfolding filter_prose
  words-filter_prose t =
      words-join newline (map (filter_line lower fillers) (split_on newline t)) newline-is_space
      ∙ concat_map-filter_line (split_on newline t)
      ∙ ap (keep_if kept) (sym (words-join newline (split_on newline t) newline-is_space))
      ∙ ap (λ u. keep_if kept (words u)) (join-split_on newline t)

  -- The check `removed_only_allowed` accepts what the pass makes of any text.
  pub removed_only_allowed-filter_prose :
      (t : Text) → removed_only_allowed lower t (filter_prose lower fillers t) fillers ≡ true
  removed_only_allowed-filter_prose t =
      (removed_only_allowed_iff lower t (filter_prose lower fillers t) fillers).1
        (rw (words-filter_prose t) (Deletes-keep_if (is_allowed lower fillers) (words t)))

  abbrev same : Text → Text → Bool
  same o c = removed_only_allowed lower o c fillers

  same_refl : (t : Text) → same t t ≡ true
  same_refl t = (removed_only_allowed_iff lower t t fillers).1 (Deletes_refl (words t))

  strip_fillers_plain :
      (t : Text)
      → next_fence t ≡ none
      → strip_fillers lower fillers t ≡ filter_prose lower fillers t
  unfolding strip_fillers
  strip_fillers_plain t h =
      rw (classify_spans_plain t h) (append-nil (filter_prose lower fillers t))

  PlainSystem-IsSafe :
      (t : Option Text) → PlainSystem t → IsSafe same (strip_fillers lower fillers) t
  PlainSystem-IsSafe none h = tt
  PlainSystem-IsSafe (some t) h = rw (strip_fillers_plain t h) (removed_only_allowed-filter_prose t)

  rewrite_request_filler :
      (r : CanonicalRequest)
      → All IsParsed r.messages
      → PlainSystem r.system
      → is_filler_equivalent lower fillers r
          (rewrite_request (filter_prose lower fillers) (strip_fillers lower fillers) r).0
        ≡ true
  unfolding is_filler_equivalent filler_violations
  rewrite_request_filler r h p = ap is_empty (
      violations-rewrite_request same (filter_prose lower fillers) (strip_fillers lower fillers)
        removed_only_allowed-filter_prose same_refl r h
      ∙ IsSafe-system_issues same (filter_prose lower fillers) (strip_fillers lower fillers)
          removed_only_allowed-filter_prose same_refl r.system (PlainSystem-IsSafe r.system p))

  is_filler_equivalent_refl : (r : CanonicalRequest) → is_filler_equivalent lower fillers r r ≡ true
  unfolding is_filler_equivalent filler_violations
  is_filler_equivalent_refl r = ap is_empty (
      violations_self same (filter_prose lower fillers) (strip_fillers lower fillers)
        removed_only_allowed-filter_prose same_refl r)

  -- For a request as the parsers build it, whose system prompt holds no complete fenced block: what
  -- `compress` returns, also when the token counter raises, passes the filler check against the
  -- request (same roles and spans, immutable spans unchanged, from the others and the system prompt
  -- only allow-listed tokens removed), and no statistics report a failed check. This holds of every
  -- allow-list.
  pub compress_filler :
      (count : Counter) (sampler : VerifySampler) (r : CanonicalRequest)
      → All IsParsed r.messages
      → PlainSystem r.system
      → (is_filler_equivalent lower fillers r (compress lower fillers count sampler r).1 ≡ true)
        × All (λ s. s.ok ≢ some false) (compress lower fillers count sampler r).2
  unfolding compress
  compress_filler count sampler r h p =
      compress_by_accepted "filler" (filter_prose lower fillers) (strip_fillers lower fillers)
        (is_filler_equivalent lower fillers) count sampler r
        (λ new. is_filler_equivalent lower fillers r new ≡ true) (is_filler_equivalent_refl r)
        (rewrite_request_filler r h p) (rewrite_request_filler r h p)
