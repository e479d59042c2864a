-- ===== src/Memory/Retrieval/Ranking.antt =====
-- memory/retrieval.py: `relevant` ranks the nodes that score above the bound, which is said here by
-- counting terms, without the functions of the code.
use mathlib.Core.List.{Perm}
use mathlib.Core.Path.{subst}
use parcus.Prelude.{
  ℕ, suc, ◌+◌, ◌*◌, ◌≤◌, ◌≡◌, refl, Bool, true, false, not, List, [], ◌∷◌, All, map, length, take,
  keep_if, contains, ltb, nat_eq, list_eq, arith, Bool-cases, inl, inr, ◌⊎◌, ap, if◌then◌else◌,
}
use parcus.Text.{Text}
use parcus.Memory.Graph.{MemoryNode, GraphStore}
use parcus.Memory.Retrieval.{
  Score, zero_score, Scored, jaccard, is_less, ranks_below, place, sort, scored, relevant,
  all_nodes, both,
}
use mathlib.Core.List.Perm

-- How many of `a` are in `b`, and how many are not.
abbrev pub common : List Text → List Text → ℕ
common [] b = 0
common (t ∷ a) b = if contains t b then suc (common a b) else common a b

abbrev pub missing : List Text → List Text → ℕ
missing [] b = 0
missing (t ∷ a) b = if contains t b then missing a b else suc (missing a b)

-- How many terms the two sets have together.
abbrev pub together : List Text → List Text → ℕ
together a b = common a b + missing a b + missing b a

-- The share of the query's and the node's terms that both have, as a fraction, is above the bound.
abbrev pub is_above : List Text → Score → MemoryNode → Bool
is_above query min n = ltb (min.shared * together query n.terms) (common query n.terms * min.union)

-- The score of a node is that share.
abbrev pub HasShare : List Text → Scored → Type 0
HasShare query x =
    (x.score.shared ≡ common query x.node.terms) × (x.score.union ≡ together query x.node.terms)

-- `y` scores no more than `x`, and shares no more terms with the query if it scores the same.
abbrev pub IsBefore : List Text → Scored → Scored → Type 0
IsBefore query x y =
    (y.score.shared * x.score.union ≤ x.score.shared * y.score.union)
    × (y.score.shared * x.score.union ≡ x.score.shared * y.score.union
        → common y.node.terms query ≤ common x.node.terms query)

abbrev pub IsRanked : List Text → List Scored → Type 0
IsRanked query [] = Unit
IsRanked query (x ∷ []) = Unit
IsRanked query (x ∷ y ∷ r) = IsBefore query x y × IsRanked query (y ∷ r)

abbrev pub node_of : Scored → MemoryNode
node_of x = x.node

length-both : (a b : List Text) → length (both a b) ≡ common a b
length-both [] b = refl
length-both (t ∷ a) b = ground (arith, length-both a b)

length-missing : (a b : List Text) → length (keep_if (λ t. not (contains t b)) a) ≡ missing a b
length-missing [] b = refl
length-missing (t ∷ a) b = ground (arith, length-missing a b)

common-missing : (a b : List Text) → common a b + missing a b ≡ length a
common-missing [] b = omega arith
common-missing (t ∷ a) b = ground (arith, common-missing a b)

not_below : (query : List Text) (x y : Scored) → ranks_below query x y ≡ false → IsBefore query x y
unfolding ranks_below
not_below query x y h =
    let a = length-both x.node.terms query in
    let b = length-both y.node.terms query in (ground (arith, a, b), λ e. ground (arith, a, b))

below : (query : List Text) (x y : Scored) → ranks_below query x y ≡ true → IsBefore query y x
unfolding ranks_below
below query x y h =
    let a = length-both x.node.terms query in
    let b = length-both y.node.terms query in (ground (arith, a, b), λ e. ground (arith, a, b))

place-Perm :
    (query : List Text) (x : Scored) (l : List Scored)
    → Perm (map node_of (place query x l)) (x.node ∷ map node_of l)
unfolding place
place-Perm query x [] = Perm.rfl
place-Perm query x (y ∷ ys) = elim (Bool-cases (ranks_below query x y)) [
  | inl h ↦
      rw (h, place)
        (Perm.trans (Perm.cons y.node (place-Perm query x ys))
          (Perm.swap x.node y.node (map node_of ys)))
  | inr h ↦ rw (h, place) Perm.rfl
]

sort-Perm :
    (query : List Text) (l : List Scored) → Perm (map node_of (sort query l)) (map node_of l)
unfolding sort
sort-Perm query [] = Perm.rfl
sort-Perm query (x ∷ xs) =
    Perm.trans (place-Perm query x (sort query xs)) (Perm.cons x.node (sort-Perm query xs))

All-place :
    (query : List Text) (P : Scored → Type 0) (x : Scored) (l : List Scored)
    → P x
    → All P l
    → All P (place query x l)
unfolding place
All-place query P x [] p h = (p, tt)
All-place query P x (y ∷ ys) p (q, h) =
    let first : P x × (P y × All P ys) = (p, (q, h)) in
    elim (Bool-cases (ranks_below query x y)) [
      | inl e ↦ rw (e, place) (q, All-place query P x ys p h)
      | inr e ↦ rw (e, place) first
    ]

All-sort :
    (query : List Text) (P : Scored → Type 0) (l : List Scored) → All P l → All P (sort query l)
unfolding sort
All-sort query P [] h = tt
All-sort query P (x ∷ xs) (p, h) = All-place query P x (sort query xs) p (All-sort query P xs h)

-- Behind `y`, which `x` ranks below.
place_behind :
    (query : List Text) (x y : Scored) (ys : List Scored)
    → ranks_below query x y ≡ true
    → IsRanked query (y ∷ ys)
    → IsRanked query (y ∷ place query x ys)
unfolding place
place_behind query x y [] h r = (below query x y h, tt)
place_behind query x y (z ∷ zs) h (b, r) = elim (Bool-cases (ranks_below query x z)) [
  | inl g ↦ rw (g, place) (b, place_behind query x z zs g r)
  | inr g ↦
      let between : IsRanked query (y ∷ x ∷ z ∷ zs) =
        (below query x y h, (not_below query x z g, r)) in
      rw (g, place) between
]

place-IsRanked :
    (query : List Text) (x : Scored) (l : List Scored)
    → IsRanked query l
    → IsRanked query (place query x l)
unfolding place
place-IsRanked query x [] r = tt
place-IsRanked query x (y ∷ ys) r = elim (Bool-cases (ranks_below query x y)) [
  | inl h ↦ rw (h, place) (place_behind query x y ys h r)
  | inr h ↦ rw (h, place) (not_below query x y h, r)
]

sort-IsRanked : (query : List Text) (l : List Scored) → IsRanked query (sort query l)
unfolding sort
sort-IsRanked query [] = tt
sort-IsRanked query (x ∷ xs) = place-IsRanked query x (sort query xs) (sort-IsRanked query xs)

common-nil : (a : List Text) → common a [] ≡ 0
common-nil [] = refl
common-nil (t ∷ a) = common-nil a

share : List Text → List Text → Score
share a b = record { shared = common a b; union = together a b }

jaccard-cases :
    (a b : List Text) → ((jaccard a b ≡ zero_score) × (common a b ≡ 0)) ⊎ (jaccard a b ≡ share a b)
unfolding jaccard share
jaccard-cases [] b = inl (refl, refl)
jaccard-cases (t ∷ a) [] = inl (refl, common-nil (t ∷ a))
jaccard-cases (t ∷ a) (u ∷ b) =
    let union : length (t ∷ a) + length (keep_if (λ v. not (contains v (t ∷ a))) (u ∷ b))
        ≡ together (t ∷ a) (u ∷ b) =
      omega (arith, common-missing (t ∷ a) (u ∷ b), length-missing (u ∷ b) (t ∷ a)) in
    let some_terms : ltb 0 (together (t ∷ a) (u ∷ b)) ≡ true =
      ground (arith, common-missing (t ∷ a) (u ∷ b)) in
    inr (rw (jaccard, union) (rw (some_terms, length-both (t ∷ a) (u ∷ b)) refl))

-- The score of a node is above the bound just when its share is, and is the share then.
jaccard-share :
    (query : List Text) (min : Score) (n : MemoryNode)
    → (is_less min (jaccard query n.terms) ≡ is_above query min n)
      × (is_above query min n ≡ true
          → HasShare query (record { node = n; score = jaccard query n.terms }))
unfolding share
jaccard-share query min n = elim (jaccard-cases query n.terms) [
  | inl (e, c) ↦ (rw (e, c) (ground arith), λ h. absurd (ground (arith, c)))
  | inr e ↦ (rw (e, share) refl, λ h. (rw (e, share) refl, rw (e, share) refl))
]

scored-nodes :
    (query : List Text) (min : Score) (ns : List MemoryNode)
    → (map node_of (scored query min ns) ≡ keep_if (is_above query min) ns)
      × All (HasShare query) (scored query min ns)
unfolding scored
scored-nodes query min [] = (refl, tt)
scored-nodes query min (n ∷ ns) =
    let (same, shares) = scored-nodes query min ns in
    let (above, shared) = jaccard-share query min n in
    elim (Bool-cases (is_above query min n)) [
      | inl e ↦ rw (above, e) (ap (λ l. n ∷ l) same, (shared e, shares))
      | inr e ↦ rw (above, e) (same, shares)
    ]

-- `relevant` returns the first `limit` items of a list that holds exactly the nodes of the graph of
-- whose terms and the query's a larger share than the bound is common to both, each with that share as
-- its score. No item scores less than the next, and of two neighbours with the same score the first
-- shares as many terms with the query as the second or more.
pub relevant-IsRanked :
    (store : GraphStore) (query : List Text) (limit : ℕ) (min_score : Score)
    → (ranking : List Scored) × Perm
        (map node_of ranking)
        (keep_if (is_above query min_score) (all_nodes store))
      × All (HasShare query) ranking
      × IsRanked query ranking
      × (relevant store query limit min_score ≡ take limit ranking)
unfolding relevant
relevant-IsRanked store query limit min_score =
    let found = scored query min_score (all_nodes store) in
    let (same, shares) = scored-nodes query min_score (all_nodes store) in
    (
      sort query found,
      subst (Perm (map node_of (sort query found))) same (sort-Perm query found),
      All-sort query (HasShare query) found shares,
      sort-IsRanked query found,
      refl,
    )
