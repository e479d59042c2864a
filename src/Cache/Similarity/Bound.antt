-- ===== src/Cache/Similarity/Bound.antt =====
-- cache/similarity.py: the size of the index.
use parcus.Prelude.{
  ℕ, zero, suc, ◌≤◌, ◌≡◌, ◌≢◌, ◌-◌, Option, none, some, List, [], ◌∷◌, ◌++◌, length, drop,
  Option-cases, inl, inr, length-append, arith, nat_eq,
}
use parcus.Text.{Text}
use parcus.Cache.Similarity.{
  SimilarityEntry, SimilarityCache, Embedding, pop_first, last_entries, new_cache, remember,
}

length-pop_first : {A : Type 0} (xs : List A) → length (pop_first xs) ≡ length xs - 1
length-pop_first [] = omega arith
length-pop_first (x ∷ xs) = omega arith

length-drop_le : {A : Type 0} (n : ℕ) (xs : List A) → length (drop n xs) ≤ length xs - n
length-drop_le zero xs = omega arith
length-drop_le (suc n) [] = omega arith
length-drop_le (suc n) (x ∷ xs) = omega (arith, length-drop_le n xs)

-- The index is loaded within its bound, unless the bound is 0, and stays within it.
pub new_cache-bound :
    {V Score : Type 0} (threshold : Score) (n : ℕ) (loaded : Option (List (SimilarityEntry V)))
    → n ≢ 0
    → length (new_cache threshold n loaded).entries ≤ n
unfolding new_cache last_entries
new_cache-bound threshold n none pos = omega arith
new_cache-bound threshold n (some loaded) pos =
    ground (arith, length-drop_le (length loaded - n) loaded)

pub remember-bound :
    {V Score : Type 0} (e : Embedding V Score) (cache : SimilarityCache V Score) (text key : Text)
    (model : Option Text) (tenant : Text)
    → length cache.entries ≤ cache.max_entries
    → length (remember e cache text key model tenant).entries
      ≤ (remember e cache text key model tenant).max_entries
unfolding remember
remember-bound e cache text key model tenant bound = elim (Option-cases (e.embed text)) [
  | inl raised ↦ rw (raised, remember) bound
  | inr (vector, made) ↦
      let entry : SimilarityEntry _ = record {
        vector = vector;
        key = key;
        model = model;
        tenant = tenant;
      } in
      rw (made, remember)
        (ground (
          arith,
          length-append cache.entries (entry ∷ []),
          length-pop_first (cache.entries ++ entry ∷ []),
        ))
]
