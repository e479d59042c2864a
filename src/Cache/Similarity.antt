-- ===== src/Cache/Similarity.antt =====
-- cache/similarity.py: the index of near-duplicates over the keys of the response cache. The embedder
-- and `cosine` (memory/embedding.py, on floats) are parameters, and the order of the scores;
-- the snapshot that `remember` writes to stands in Snapshot.
pub mod Best
pub mod Bound
pub mod Snapshot
use parcus.Prelude.{
  ℕ, ◌-◌, ◌≡◌, ◌≢◌, Bool, true, false, not, ◌||◌, Option, none, some, List, [], ◌∷◌, ◌++◌, length,
  drop, ltb, nat_eq, list_eq, option_eq, ◌==◌, if◌then◌else◌,
}
use parcus.Text.{Text}

pub record SimilarityEntry (V : Type 0) : Type 0 where
  pub vector : V
  pub key : Text
  pub model : Option Text
  pub tenant : Text

-- A call of `embed` or `cosine` that raises is none.
pub record Embedding (V Score : Type 0) : Type 0 where
  pub embed : Text → Option V
  pub cosine : V → V → Option Score
  pub at_least : Score → Score → Bool

pub record SimilarityCache (V Score : Type 0) : Type 0 where
  pub threshold : Score
  pub max_entries : ℕ
  pub entries : List (SimilarityEntry V)

-- `list(store.load())[-max_entries:]`, where `[-0:]` is the whole list.
unfoldable pub last_entries : {V : Type 0} → ℕ → List (SimilarityEntry V) → List (SimilarityEntry V)
last_entries n entries = if n == 0 then entries else drop (length entries - n) entries

-- `__init__`; a store that raises, or none, loads nothing.
unfoldable pub new_cache :
    {V Score : Type 0} → Score → ℕ → Option (List (SimilarityEntry V)) → SimilarityCache V Score
unfolding last_entries
new_cache threshold max_entries none = record {
  threshold = threshold;
  max_entries = max_entries;
  entries = [];
}
new_cache threshold max_entries (some loaded) = record {
  threshold = threshold;
  max_entries = max_entries;
  entries = last_entries max_entries loaded;
}

-- `entry.model != model or entry.tenant != tenant`, which skips the entry.
unfoldable pub is_skipped : {V : Type 0} → Option Text → Text → SimilarityEntry V → Bool
is_skipped model tenant entry = not (entry.model == model) || not (entry.tenant == tenant)

abbrev pop_first : {A : Type 0} → List A → List A
pop_first [] = []
pop_first (x ∷ xs) = xs

module _ {V Score : Type 0} (e : Embedding V Score) where
  -- The loop of `lookup`: none where `cosine` raises.
  unfoldable pub best_of :
      V → Option Text → Text → Score → Option Text → List (SimilarityEntry V) → Option (Option Text)
  unfolding is_skipped
  best_of vector model tenant best_sim best_key [] = some best_key
  best_of vector model tenant best_sim best_key (entry ∷ entries) =
      if is_skipped model tenant entry
      then best_of vector model tenant best_sim best_key entries
      else elim (e.cosine vector entry.vector) [
        | none ↦ none
        | some sim ↦
            if e.at_least sim best_sim
            then best_of vector model tenant sim (some entry.key) entries
            else best_of vector model tenant best_sim best_key entries
      ]

  -- `lookup`
  unfoldable pub lookup_near : SimilarityCache V Score → Text → Option Text → Text → Option Text
  unfolding best_of
  lookup_near cache text model tenant = elim (e.embed text) [
    | none ↦ none
    | some vector ↦ elim (best_of vector model tenant cache.threshold none cache.entries) [
      | none ↦ none
      | some key ↦ key
    ]
  ]

  -- `remember`
  unfoldable pub remember :
      SimilarityCache V Score → Text → Text → Option Text → Text → SimilarityCache V Score
  remember cache text key model tenant = elim (e.embed text) [
    | none ↦ cache
    | some vector ↦
        let entry : SimilarityEntry V = record {
          vector = vector;
          key = key;
          model = model;
          tenant = tenant;
        } in
        let entries = cache.entries ++ entry ∷ [] in
        record cache {
          entries = if ltb cache.max_entries (length entries) then pop_first entries else entries;
        }
  ]
