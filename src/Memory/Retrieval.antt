-- ===== src/Memory/Retrieval.antt =====
-- memory/retrieval.py: the nodes of the graph that share most terms with a query. A score is a
-- fraction, and compared exactly; a set of terms is a list without repeats.
pub mod Ranking
use parcus.Prelude.{
  ℕ, ◌+◌, ◌*◌, Bool, true, false, not, ◌&&◌, ◌||◌, List, [], ◌∷◌, map, length, take, ltb, contains,
  is_empty, keep_if, ◌==◌, nat_eq, list_eq, if◌then◌else◌,
}
use parcus.Text.{Text}
use parcus.Memory.Graph.{MemoryNode, GraphStore}

pub record Score : Type 0 where
  pub shared : ℕ
  pub union : ℕ

abbrev pub zero_score : Score
zero_score = record { shared = 0; union = 1 }

-- `a & b`
abbrev pub both : List Text → List Text → List Text
both a b = keep_if (λ t. contains t b) a

-- `jaccard`
unfoldable pub jaccard : List Text → List Text → Score
jaccard a b =
    let union = length a + length (keep_if (λ t. not (contains t a)) b) in
    if is_empty a || is_empty b
    then zero_score
    else if ltb 0 union
    then record { shared = length (both a b); union = union }
    else zero_score

-- `x < y`
abbrev pub is_less : Score → Score → Bool
is_less x y = ltb (x.shared * y.union) (y.shared * x.union)

abbrev pub is_equal : Score → Score → Bool
is_equal x y = (x.shared * y.union) == (y.shared * x.union)

pub record Scored : Type 0 where
  pub node : MemoryNode
  pub score : Score

-- The order of the keys that `relevant` sorts by.
unfoldable pub ranks_below : List Text → Scored → Scored → Bool
ranks_below query x y =
    is_less x.score y.score
    || (is_equal x.score y.score
        && ltb (length (both x.node.terms query)) (length (both y.node.terms query)))

-- `sort(key=…, reverse=True)`, which is stable
unfoldable pub place : List Text → Scored → List Scored → List Scored
unfolding ranks_below
place query x [] = x ∷ []
place query x (y ∷ ys) =
    let rest = place query x ys in if ranks_below query x y then y ∷ rest else x ∷ y ∷ ys

unfoldable pub sort : List Text → List Scored → List Scored
unfolding place
sort query [] = []
sort query (x ∷ xs) = place query x (sort query xs)

-- The loop over the nodes.
unfoldable pub scored : List Text → Score → List MemoryNode → List Scored
unfolding jaccard
scored query min_score [] = []
scored query min_score (n ∷ ns) =
    let score = jaccard query n.terms in
    let rest = scored query min_score ns in
    if is_less min_score score then record { node = n; score = score } ∷ rest else rest

-- `nodes`
abbrev pub all_nodes : GraphStore → List MemoryNode
all_nodes store = map (λ (entry : Text × MemoryNode). entry.1) store.nodes

-- `relevant`
unfoldable pub relevant : GraphStore → List Text → ℕ → Score → List Scored
unfolding sort scored
relevant store query limit min_score =
    take limit (sort query (scored query min_score (all_nodes store)))
