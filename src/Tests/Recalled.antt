-- ===== src/Tests/Recalled.antt =====
-- memory/summary.py and memory/retrieval.py on a few turns.
use mathlib.Core.List.{reverse_perm, reverse, Perm}
use parcus.Prelude.{All, ◌≡◌, List, [], ◌∷◌, take, map, keep_if}
use parcus.Text.{Text, codes}
use parcus.Memory.Terms.{extract_terms}
use parcus.Memory.Terms.Worded.{extract_terms-IsWord}
use parcus.Memory.Graph.{MemoryNode, GraphStore, turn, new_store, get_node, neighbors}
use parcus.Memory.Persisted.{stored_node, stored_edges, new_database}
use parcus.Memory.Persisted.Agreement.{
  Write, of_node, of_edge, in_database, in_memory, IsSameAnswer, in_database-agrees, HasWords,
}
use parcus.Memory.Summary.{bullets, summarize}
use parcus.Memory.Summary.Leads.{new_only, leads_of, summarize_lem}
use parcus.Memory.Retrieval.{Score, Scored, relevant, all_nodes}
use parcus.Memory.Retrieval.Ranking.{IsRanked, HasShare, is_above, node_of, relevant-IsRanked}

abbrev turns : List Text
turns = codes "Hi. Bye." ∷ codes " " ∷ codes "Hi. You" ∷ codes "Why? So" ∷ []

summarize_lem_example :
    summarize (λ t. t) 0 turns ≡ bullets (take 1 (new_only (λ t. t) [] (leads_of (λ t. t) turns)))
summarize_lem_example = summarize_lem (λ t. t) 0 turns

abbrev node : Text → List Text → Text × MemoryNode
node id terms = (id, record { id = id; kind = turn; text = id; terms = terms })

abbrev graph : GraphStore
graph = record {
  nodes =
      node (codes "a") (codes "cat" ∷ []) ∷ node (codes "b") (codes "cat" ∷ codes "dog" ∷ []) ∷ [];
  edges = [];
}

abbrev query : List Text
query = codes "cat" ∷ codes "dog" ∷ []

abbrev none_shared : Score
none_shared = record { shared = 0; union = 1 }

relevant-IsRanked_example :
    (ranking : List Scored) × Perm
      (map node_of ranking)
      (keep_if (is_above query none_shared) (all_nodes graph))
    × All (HasShare query) ranking
    × IsRanked query ranking
    × (relevant graph query 1 none_shared ≡ take 1 ranking)
relevant-IsRanked_example = relevant-IsRanked graph query 1 none_shared

abbrev read : Text → Text → MemoryNode
unfolding extract_terms
read id text = record { id = id; kind = turn; text = text; terms = extract_terms (λ t. t) text }

abbrev writes : List Write
unfolding read
writes =
    of_node (read (codes "a") (codes "the cat, the dog"))
    ∷ of_node (read (codes "b") (codes "so"))
    ∷ of_edge (record { src = codes "b"; dst = codes "a"; kind = codes "follows" })
    ∷ of_node (read (codes "a") (codes "a mouse"))
    ∷ []

writes-HasWords : All HasWords writes
unfolding writes
writes-HasWords = (
  extract_terms-IsWord (λ t. t) (codes "the cat, the dog"),
  (
    extract_terms-IsWord (λ t. t) (codes "so"),
    (tt, (extract_terms-IsWord (λ t. t) (codes "a mouse"), tt)),
  ),
)

in_database-agrees_example :
    IsSameAnswer
      (stored_node (in_database writes new_database) (codes "b"))
      (get_node (in_memory writes new_store) (codes "b"))
    × Perm
        (stored_edges reverse (in_database writes new_database) (codes "b"))
        (neighbors (in_memory writes new_store) (codes "b"))
in_database-agrees_example =
    in_database-agrees reverse reverse_perm writes writes-HasWords (codes "b")
