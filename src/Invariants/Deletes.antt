-- ===== src/Invariants/Deletes.antt =====
-- `removed_only_allowed` decides what its documentation says.
use mathlib.Core.Path.{subst}
use parcus.Prelude.{
  ◌⊎◌, Bool, true, not, List, [], ◌∷◌, ◌≡◌, ◌↔◌, refl, inl, inr, arith, Bool-cases, ◌==◌, nat_eq,
  list_eq, keep_if, list_beq_iff, beq_refl,
}
use parcus.Text.{Text, words}
use parcus.Invariants.{match_tokens, removed_only_allowed, is_allowed}

-- The output is the original with allowed tokens deleted: the others stay, unchanged and in order.
pub data Deletes (allowed : Text → Bool) : List Text → List Text → Type 0 where
  done : Deletes allowed [] []
  keep :
      {ts out : List Text} (t : Text) → Deletes allowed ts out → Deletes allowed (t ∷ ts) (t ∷ out)
  delete :
      {ts out : List Text} (t : Text)
      → allowed t ≡ true
      → Deletes allowed ts out
      → Deletes allowed (t ∷ ts) out

module _ (allowed : Text → Bool) where
  match_tokens_sound :
      (ts out : List Text) → match_tokens allowed ts out ≡ true → Deletes allowed ts out
  unfolding match_tokens
  match_tokens_sound [] [] h = done
  match_tokens_sound [] (o ∷ out) h = cc
  match_tokens_sound (t ∷ ts) [] h = elim (Bool-cases (allowed t)) [
    | inl e ↦ delete t e (match_tokens_sound ts [] (ground arith))
    | inr e ↦ absurd (ground arith)
  ]
  match_tokens_sound (t ∷ ts) (o ∷ out) h = elim (Bool-cases (t == o)) [
    | inl e ↦
        subst (λ x. Deletes allowed (t ∷ ts) (x ∷ out)) ((list_beq_iff t o).0 e)
          (keep t (match_tokens_sound ts out (ground arith)))
    | inr e ↦ elim (Bool-cases (allowed t)) [
      | inl a ↦ delete t a (match_tokens_sound ts (o ∷ out) (ground arith))
      | inr a ↦ absurd (ground arith)
    ]
  ]

  -- How the first token fares.
  inversion :
      {ts out : List Text} (t : Text)
      → Deletes allowed (t ∷ ts) out
      → ((allowed t ≡ true) × Deletes allowed ts out)
        ⊎ ((out' : List Text) × (out ≡ t ∷ out') × Deletes allowed ts out')
  inversion t (keep {out = out'} _ d) = inr (out', refl, d)
  inversion t (delete _ e d) = inl (e, d)

  -- An output token that may be deleted need not be kept.
  delete_head :
      {ts out : List Text} (o : Text)
      → allowed o ≡ true
      → Deletes allowed ts (o ∷ out)
      → Deletes allowed ts out
  delete_head o e (keep _ d) = delete o e d
  delete_head o e (delete t a d) = delete t a (delete_head o e d)

  -- Matching eagerly loses nothing.
  match_tokens_complete :
      (ts out : List Text) → Deletes allowed ts out → match_tokens allowed ts out ≡ true
  unfolding match_tokens
  match_tokens_complete [] [] d = refl
  match_tokens_complete [] (o ∷ out) d = elim d [ ]
  match_tokens_complete (t ∷ ts) [] d = elim (inversion t d) [
    | inl (a, r) ↦ rw a (match_tokens_complete ts [] r)
    | inr (out', e, r) ↦ cc
  ]
  match_tokens_complete (t ∷ ts) (o ∷ out) d = elim (Bool-cases (t == o)) [
    | inl q ↦
        rw (q, match_tokens)
          (elim (inversion t d) [
            | inl (a, r) ↦
                match_tokens_complete ts out (delete_head o (rw (← (list_beq_iff t o).0 q) a) r)
            | inr (out', e, r) ↦ match_tokens_complete ts out (subst (Deletes allowed ts) (cc e) r)
          ])
    | inr q ↦ elim (inversion t d) [
      | inl (a, r) ↦ rw (q, match_tokens) (rw a (match_tokens_complete ts (o ∷ out) r))
      | inr (out', e, r) ↦ cc (e, beq_refl t)
    ]
  ]

-- The check accepts exactly the outputs that are the original with allow-listed tokens deleted.
pub removed_only_allowed_iff :
    (lower : Text → Text) (original compressed : Text) (allowed : List Text)
    → (removed_only_allowed lower original compressed allowed ≡ true)
      ↔ Deletes (is_allowed lower allowed) (words original) (words compressed)
unfolding removed_only_allowed
removed_only_allowed_iff lower original compressed allowed = (
  match_tokens_sound (is_allowed lower allowed) (words original) (words compressed),
  match_tokens_complete (is_allowed lower allowed) (words original) (words compressed),
)

-- Filtering the allowed tokens out is such a deletion.
pub Deletes-keep_if :
    (allowed : Text → Bool) (ts : List Text)
    → Deletes allowed ts (keep_if (λ t. not (allowed t)) ts)
Deletes-keep_if allowed [] = done
Deletes-keep_if allowed (t ∷ ts) = elim (Bool-cases (allowed t)) [
  | inl e ↦ rw e (delete t e (Deletes-keep_if allowed ts))
  | inr e ↦ rw e (keep t (Deletes-keep_if allowed ts))
]

pub Deletes_refl : {allowed : Text → Bool} (ts : List Text) → Deletes allowed ts ts
Deletes_refl [] = done
Deletes_refl (t ∷ ts) = keep t (Deletes_refl ts)
