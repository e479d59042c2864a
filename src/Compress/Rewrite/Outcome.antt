-- ===== src/Compress/Rewrite/Outcome.antt =====
-- The ways in which `compress` of a rewriting pass can end.
use Prim.Native.String.{String}
use parcus.Prelude.{
  ℕ, Bool, true, false, Option, none, some, [], ◌∷◌, ◌≡◌, ◌≢◌, ◌⊎◌, refl, inl, inr, All, arith,
  Option-cases, Bool-cases,
}
use parcus.Text.{Text}
use parcus.Model.{CanonicalRequest, request_text}
use parcus.Compress.Sampling.{VerifySampler, should_verify}
use parcus.Compress.Rewrite.{Counter, compress_by, measured, rewrite_request}

module _ (step : String) (prose whole : Text → Text)
    (check : CanonicalRequest → CanonicalRequest → Bool) (count : Counter) (sampler : VerifySampler)
    (r : CanonicalRequest) where
  abbrev new : CanonicalRequest
  new = (rewrite_request prose whole r).0

  -- The counter raises on the request, or on what becomes of it.
  abbrev pub Raises : Type 0
  Raises = (count (request_text r) r.model ≡ none) ⊎ (count (request_text new) new.model ≡ none)

  pub compress_by_raises :
      Raises → compress_by step prose whole check count sampler r ≡ (sampler, r, [])
  unfolding compress_by measured
  compress_by_raises (inl e) = rw (e, compress_by)
  compress_by_raises (inr e) = elim (Option-cases (count (request_text r) r.model)) [
    | inl f ↦ rw (f, compress_by)
    | inr (before, f) ↦ rw (f, compress_by) (rw (e, measured))
  ]

  -- Otherwise it returns the rewritten request, and one line of statistics that holds both counts;
  -- the sampler moves on by one call.
  pub compress_by_returns :
      (before after : ℕ)
      → count (request_text r) r.model ≡ some before
      → count (request_text new) new.model ≡ some after
      → (ok : Option Bool) × (compress_by step prose whole check count sampler r ≡ (
        (should_verify sampler).0,
        new,
        record {
          step = step;
          tokens_before = before;
          tokens_after = after;
          spans_touched = (rewrite_request prose whole r).1;
          ok = ok;
        }
            ∷ [],
      ))
        × ((ok ≡ none) ⊎ (ok ≡ some (check r new)))
  unfolding compress_by measured
  compress_by_returns before after e f = elim (Bool-cases (should_verify sampler).1) [
    | inl v ↦ (some (check r new), rw (e, compress_by) (rw (f, measured) (rw v)), inr refl)
    | inr v ↦ (none, rw (e, compress_by) (rw (f, measured) (rw v)), inl refl)
  ]

  -- What holds of the request and of the rewritten one holds of the result, and a check that
  -- accepts the rewritten request is never reported as failed.
  pub compress_by_accepted :
      (P : CanonicalRequest → Type 0)
      → P r
      → P new
      → check r new ≡ true
      → P (compress_by step prose whole check count sampler r).1
        × All (λ s. s.ok ≢ some false) (compress_by step prose whole check count sampler r).2
  compress_by_accepted P old changed h = elim (Option-cases (count (request_text r) r.model)) [
    | inl e ↦ rw (compress_by_raises (inl e)) (old, tt)
    | inr (before, e) ↦ elim (Option-cases (count (request_text new) new.model)) [
      | inl f ↦ rw (compress_by_raises (inr f)) (old, tt)
      | inr (after, f) ↦
          let (ok, p, k) = compress_by_returns before after e f in
          rw p (changed, (not_failed ok k, tt))
    ]
  ]
    where
      not_failed : (ok : Option Bool) → (ok ≡ none) ⊎ (ok ≡ some (check r new)) → ok ≢ some false
      not_failed ok k q = ground (arith, h)
