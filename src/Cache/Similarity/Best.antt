-- ===== src/Cache/Similarity/Best.antt =====
-- cache/similarity.py: what `lookup` finds.
use parcus.Prelude.{
  ◌≡◌, ◌⊎◌, All, All-map, refl, ap, ◌∙◌, sym, true, false, Option, none, some, List, [], ◌∷◌, ◌++◌,
  Bool-cases, Option-cases, option_beq_iff, list_beq_iff, inl, inr, arith, nat_eq, list_eq,
  option_eq, if◌then◌else◌,
}
use parcus.Text.{Text}
use parcus.Cache.Similarity.{
  SimilarityEntry, SimilarityCache, Embedding, is_skipped, best_of, lookup_near,
}

-- What an order of scores is.
pub record IsOrder {V Score : Type 0} (e : Embedding V Score) : Type 0 where
  pub reflexive : (s : Score) → e.at_least s s ≡ true
  pub transitive :
      (r s t : Score) → e.at_least r s ≡ true → e.at_least s t ≡ true → e.at_least r t ≡ true
  pub total : (s t : Score) → e.at_least s t ≡ false → e.at_least t s ≡ true

module _ {V Score : Type 0} (e : Embedding V Score) (vector : V) (model : Option Text)
    (tenant : Text) where
  -- An entry that is compared, if it is of the model and the tenant, scores below or at most so much.
  abbrev pub Below : Score → SimilarityEntry V → Type 0
  Below limit entry =
      is_skipped model tenant entry ≡ false
      → (sim : Score) × (e.cosine vector entry.vector ≡ some sim) × (e.at_least sim limit ≡ false)

  abbrev pub AtMost : Score → SimilarityEntry V → Type 0
  AtMost best entry =
      is_skipped model tenant entry ≡ false
      → (sim : Score) × (e.cosine vector entry.vector ≡ some sim) × (e.at_least best sim ≡ true)

  -- The key that is found is one of an entry of the model and the tenant that scores at least the
  -- limit, and no other such entry scores higher.
  pub record IsBest (limit : Score) (entries : List (SimilarityEntry V)) (found : Option Text)
      : Type 0 where
    pub entry : SimilarityEntry V
    pub best : Score
    pub before : List (SimilarityEntry V)
    pub after : List (SimilarityEntry V)
    pub place : entries ≡ before ++ entry ∷ after
    pub of_model : is_skipped model tenant entry ≡ false
    pub scores : e.cosine vector entry.vector ≡ some best
    pub its_key : found ≡ some entry.key
    pub enough : e.at_least best limit ≡ true
    pub highest : All (AtMost best) entries

  later :
      (limit : Score) (x : SimilarityEntry V) (entries : List (SimilarityEntry V))
      (found : Option Text) (b : IsBest limit entries found) (lower : Score)
      → e.at_least b.best lower ≡ true
      → AtMost b.best x
      → IsBest lower (x ∷ entries) found
  later limit x entries found b lower enough most = record {
    entry = b.entry;
    best = b.best;
    before = x ∷ b.before;
    after = b.after;
    place = ap (λ l. x ∷ l) b.place;
    of_model = b.of_model;
    scores = b.scores;
    its_key = b.its_key;
    enough = enough;
    highest = (most, b.highest);
  }

  module _ (order : IsOrder e) where
    best_of-skip :
        (limit : Score) (key : Option Text) (x : SimilarityEntry V)
        (entries : List (SimilarityEntry V))
        → is_skipped model tenant x ≡ true
        → best_of e vector model tenant limit key (x ∷ entries)
          ≡ best_of e vector model tenant limit key entries
    unfolding best_of
    best_of-skip limit key x entries skip = rw (skip, best_of) refl

    best_of-compare :
        (limit : Score) (key : Option Text) (x : SimilarityEntry V)
        (entries : List (SimilarityEntry V))
        → is_skipped model tenant x ≡ false
        → best_of e vector model tenant limit key (x ∷ entries) ≡ (elim (e.cosine vector x.vector) [
          | none ↦ none
          | some sim ↦
              if e.at_least sim limit
              then best_of e vector model tenant sim (some x.key) entries
              else best_of e vector model tenant limit key entries
        ])
    unfolding best_of
    best_of-compare limit key x entries compared = rw (compared, best_of) refl

    best_of-cases :
        (limit : Score) (key : Option Text) (entries : List (SimilarityEntry V))
        (found : Option Text)
        → best_of e vector model tenant limit key entries ≡ some found
        → ((found ≡ key) × All (Below limit) entries) ⊎ IsBest limit entries found
    unfolding best_of
    best_of-cases limit key [] found h = inl (ground arith, tt)
    best_of-cases limit key (x ∷ entries) found h = elim (Bool-cases (is_skipped model tenant x)) [
      | inl skip ↦
          elim (best_of-cases limit key entries found
            (sym (best_of-skip limit key x entries skip) ∙ h)) [
              | inl (k, below) ↦ inl (k, ((λ q. absurd (ground (arith, skip, q))), below))
              | inr b ↦ inr (
                  later limit x entries found b limit b.enough
                    (λ q. absurd (ground (arith, skip, q))))
            ]
      | inr compared ↦
          let step = sym (best_of-compare limit key x entries compared) ∙ h in
          elim (Option-cases (e.cosine vector x.vector)) [
            | inl raised ↦ absurd (ground (arith, raised, step))
            | inr (sim, c) ↦ elim (Bool-cases (e.at_least sim limit)) [
              | inl more ↦
                  elim (best_of-cases sim (some x.key) entries found
                    (ground (arith, c, more, step))) [
                      | inl (k, below) ↦ inr (record {
                        entry = x;
                        best = sim;
                        before = [];
                        after = entries;
                        place = refl;
                        of_model = compared;
                        scores = c;
                        its_key = k;
                        enough = more;
                        highest = (
                          (λ q. (sim, c, order.reflexive sim)),
                          All-map
                              (λ other below q.
                                let (s, d, less) = below q in (s, d, order.total s sim less))
                              entries below,
                        );
                      })
                      | inr b ↦ inr (
                          later sim x entries found b limit
                            (order.transitive b.best sim limit b.enough more)
                            (λ q. (sim, c, b.enough)))
                    ]
              | inr less ↦
                  elim (best_of-cases limit key entries found (ground (arith, c, less, step))) [
                    | inl (k, below) ↦ inl (k, ((λ q. (sim, c, less)), below))
                    | inr b ↦ inr (
                        later limit x entries found b limit b.enough (λ q. (
                          sim,
                          c,
                          order.transitive b.best limit sim b.enough (order.total sim limit less),
                        )))
                  ]
            ]
          ]
    ]

    best_of-some :
        (limit : Score) (entries : List (SimilarityEntry V)) (key : Text)
        → best_of e vector model tenant limit none entries ≡ some (some key)
        → IsBest limit entries (some key)
    best_of-some limit entries key h = elim (best_of-cases limit none entries (some key) h) [
      | inl (k, _) ↦ absurd (ground (arith, k))
      | inr b ↦ b
    ]

not_skipped :
    {V : Type 0} (model : Option Text) (tenant : Text) (entry : SimilarityEntry V)
    → is_skipped model tenant entry ≡ false
    → (entry.model ≡ model) × (entry.tenant ≡ tenant)
unfolding is_skipped
not_skipped model tenant entry h = (
  (option_beq_iff entry.model model).0 (ground arith),
  (list_beq_iff entry.tenant tenant).0 (ground arith),
)

-- A near-duplicate is of the same model and tenant: the key that `lookup` answers with is the key of
-- an entry of the index that has the model and the tenant of the request and scores the threshold or
-- more against it, and no entry of that model and tenant scores higher. Scores are to be ordered.
pub lookup_near-IsBest :
    {V Score : Type 0} (e : Embedding V Score) (order : IsOrder e) (cache : SimilarityCache V Score)
    (text : Text) (model : Option Text) (tenant key : Text)
    → lookup_near e cache text model tenant ≡ some key
    → (vector : V) × (e.embed text ≡ some vector)
      × ((b : IsBest e vector model tenant cache.threshold cache.entries (some key))
          × (b.entry.model ≡ model)
          × (b.entry.tenant ≡ tenant))
unfolding lookup_near
lookup_near-IsBest e order cache text model tenant key h = elim (Option-cases (e.embed text)) [
  | inl raised ↦ absurd (ground (arith, raised, h))
  | inr (vector, made) ↦
      let b =
        best_of-some e vector model tenant order cache.threshold cache.entries key
          (ground (arith, made, h)) in
      let (m, t) = not_skipped model tenant b.entry b.of_model in (vector, made, (b, m, t))
]
