-- ===== src/Text/Lines.antt =====
-- Cutting a text at a separator and joining the pieces again.
use parcus.Prelude.{
  ℕ, suc, ◌≤◌, List, [], ◌∷◌, ◌++◌, map, ◌≡◌, refl, ap, sym, ◌∙◌, inl, inr, Bool-cases, length,
  length-append, arith, ◌==◌, nat_eq, nat_beq_iff,
}
use parcus.Text.{Text, split_on, join, rstrip, trim_step}

split_on-cons : (sep : ℕ) (s : Text) → (l : Text) × (ls : List Text) × (split_on sep s ≡ l ∷ ls)
unfolding split_on
split_on-cons sep [] = ([], [], refl)
split_on-cons sep (c ∷ s) =
    let (l, ls, e) = split_on-cons sep s in
    elim (Bool-cases (c == sep)) [
      | inl h ↦ ([], split_on sep s, rw h)
      | inr h ↦ (c ∷ l, ls, rw (h, e))
    ]

join-cons :
    (sep : Text) (c : ℕ) (l : Text) (ls : List Text)
    → join sep ((c ∷ l) ∷ ls) ≡ c ∷ join sep (l ∷ ls)
unfolding join
join-cons sep c l [] = refl
join-cons sep c l (m ∷ ls) = refl

join-nil : (sep l : Text) (ls : List Text) → join sep ([] ∷ l ∷ ls) ≡ sep ++ join sep (l ∷ ls)
unfolding join
join-nil sep l ls = refl

-- `sep.join(s.split(sep))` is `s`.
pub join-split_on : (sep : ℕ) (s : Text) → join (sep ∷ []) (split_on sep s) ≡ s
unfolding split_on
join-split_on sep [] = unfold join in refl
join-split_on sep (c ∷ s) =
    let (l, ls, e) = split_on-cons sep s in
    let ih : join (sep ∷ []) (l ∷ ls) ≡ s = ap (join (sep ∷ [])) (sym e) ∙ join-split_on sep s in
    elim (Bool-cases (c == sep)) [
      | inl h ↦
          rw (h, e, join-nil)
            (ap (λ t. sep ∷ t) ih ∙ ap (λ (d : ℕ). d ∷ s) (sym ((nat_beq_iff c sep).0 h)))
      | inr h ↦ rw (h, e) (join-cons (sep ∷ []) c l ls ∙ ap (λ t. c ∷ t) ih)
    ]

length-trim_step-le : (c : ℕ) (r : Text) → length (trim_step c r) ≤ suc (length r)
length-trim_step-le c [] = ground arith
length-trim_step-le c (d ∷ r) = omega arith

pub length-rstrip-le : (s : Text) → length (rstrip s) ≤ length s
unfolding rstrip
length-rstrip-le [] = omega arith
length-rstrip-le (c ∷ s) = omega (arith, length-trim_step-le c (rstrip s), length-rstrip-le s)

-- Joining shorter pieces gives a shorter text.
pub length-join-map-le :
    (sep : Text) (f : Text → Text)
    → ((t : Text) → length (f t) ≤ length t)
    → (ls : List Text) → length (join sep (map f ls)) ≤ length (join sep ls)
unfolding join
length-join-map-le sep f h [] = omega arith
length-join-map-le sep f h (l ∷ []) = h l
length-join-map-le sep f h (l ∷ m ∷ ls) = omega (
  arith,
  h l,
  length-join-map-le sep f h (m ∷ ls),
  length-append (f l) (sep ++ join sep (map f (m ∷ ls))),
  length-append sep (join sep (map f (m ∷ ls))),
  length-append l (sep ++ join sep (m ∷ ls)),
  length-append sep (join sep (m ∷ ls)),
)
