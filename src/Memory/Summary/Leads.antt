-- ===== src/Memory/Summary/Leads.antt =====
-- memory/summary.py: what the loop of `summarize` gathers, against a description without its state.
use mathlib.Core.List.{append_assoc, append-nil}
use parcus.Prelude.{
  ℕ, suc, ◌+◌, ◌-◌, ◌≡◌, refl, ap, sym, ◌∙◌, true, false, not, List, [], ◌∷◌, ◌++◌, map, length,
  take, leb, contains, is_empty, keep_if, max, arith, length-append, Bool-cases, inl, inr, nat_eq,
  list_eq,
}
use parcus.Text.{Text}
use parcus.Memory.Summary.{lead, bullets, gather, summarize}

one_more : (n : ℕ) → (k : ℕ) × (suc k ≡ max 1 n)
one_more n = (max 1 n - 1, omega arith)

module _ (lower : Text → Text) where
  -- The leads that differ, but for case, from those before them and from `seen`.
  unfoldable pub new_only : List Text → List Text → List Text
  new_only seen [] = []
  new_only seen (found ∷ leads) = elim (contains (lower found) seen) [
    | true ↦ new_only seen leads
    | false ↦ found ∷ new_only (lower found ∷ seen) leads
  ]

  abbrev pub leads_of : List Text → List Text
  unfolding lead
  leads_of texts = keep_if (λ found. not (is_empty found)) (map lead texts)

  -- With room for `suc k` more.
  gather-new_only :
      (n k : ℕ) (leads seen texts : List Text)
      → suc k + length leads ≡ max 1 n
      → gather lower n leads seen texts ≡ leads ++ take (suc k) (new_only seen (leads_of texts))
  unfolding gather new_only
  gather-new_only n k leads seen [] h = sym (append-nil leads)
  gather-new_only n k leads seen (text ∷ texts) h = elim (Bool-cases (is_empty (lead text))) [
    | inl e ↦ rw (e, gather) (gather-new_only n k leads seen texts h)
    | inr e ↦ elim (Bool-cases (contains (lower (lead text)) seen)) [
      | inl c ↦ rw (e, c, gather, new_only) (gather-new_only n k leads seen texts h)
      | inr c ↦
          let found = lead text in
          let more = length-append leads (found ∷ []) in
          let rest = new_only (lower found ∷ seen) (leads_of texts) in
          elim (Bool-cases (leb n (length (leads ++ found ∷ [])))) [
            | inl full ↦
                let none_left : k ≡ 0 = ground arith in
                rw (e, c, gather, new_only, full, none_left) refl
            | inr room ↦
                let (j, one_left) : (j : ℕ) × (k ≡ suc j) = (k - 1, ground arith) in
                rw (e, c, gather, new_only, room, one_left)
                  (gather-new_only n j (leads ++ found ∷ []) (lower found ∷ seen) texts
                      (ground arith)
                    ∙ append_assoc leads (found ∷ []) (take (suc j) rest))
          ]
    ]
  ]

  -- A summary lists the leads of the turns that have one, in order and without those that differ from
  -- an earlier one only in case, and of these the first `max_items`; one if `max_items` is 0.
  pub summarize_lem :
      (max_items : ℕ) (texts : List Text)
      → summarize lower max_items texts
        ≡ bullets (take (max 1 max_items) (new_only [] (leads_of texts)))
  unfolding summarize new_only
  summarize_lem max_items texts =
      let (k, e) = one_more max_items in
      ap bullets (
        gather-new_only max_items k [] [] texts (omega (arith, e))
        ∙ ap (λ n. take n (new_only [] (leads_of texts))) e)
