-- ===== src/Memory/Persisted.antt =====
-- memory/sqlite_store.py: the graph in a database. The rows of a table are in the order of their row
-- ids; vectors are not modelled.
pub mod Agreement
use parcus.Prelude.{
  ℕ, not, Option, none, some, List, [], ◌∷◌, ◌++◌, length, keep_if, ◌==◌, nat_eq, list_eq,
  if◌then◌else◌,
}
use parcus.Text.{Text, codes, blank, words, join}
use parcus.Text.Sets.{sorted}
use parcus.Memory.Terms.{distinct}
use parcus.Memory.Graph.{
  MemoryKind, turn, fact, entity, decision, kind_value, MemoryNode, MemoryEdge,
}

pub record NodeRow : Type 0 where
  pub id : Text
  pub kind : Text
  pub text : Text
  pub terms : Text

-- The tables `nodes` and `edges`.
pub record Database : Type 0 where
  pub nodes : List NodeRow
  pub edges : List MemoryEdge

abbrev pub new_database : Database
new_database = record { nodes = []; edges = [] }

-- The values that `add_node` writes.
unfoldable pub to_row : MemoryNode → NodeRow
unfolding join sorted
to_row node = record {
  id = node.id;
  kind = kind_value node.kind;
  text = node.text;
  terms = join (blank ∷ []) (sorted node.terms);
}

-- `MemoryKind(value)`, none where it raises
unfoldable pub kind_of : Text → Option MemoryKind
kind_of value =
    if value == codes "turn"
    then some turn
    else if value == codes "fact"
    then some fact
    else if value == codes "entity"
    then some entity
    else if value == codes "decision"
    then some decision
    else none

-- `_to_node`
unfoldable pub to_node : NodeRow → Option MemoryNode
unfolding kind_of words distinct
to_node row = elim (kind_of row.kind) [
  | none ↦ none
  | some kind ↦
      some
        (record { id = row.id; kind = kind; text = row.text; terms = distinct (words row.terms) })
]

-- `INSERT OR REPLACE` takes the old row away, and the new one comes last.
unfoldable pub put_node : Database → MemoryNode → Database
unfolding to_row
put_node db node = record db {
  nodes = keep_if (λ row. not (row.id == node.id)) db.nodes ++ to_row node ∷ [];
}

unfoldable pub put_edge : Database → MemoryEdge → Database
put_edge db edge = record db { edges = db.edges ++ edge ∷ [] }

-- `WHERE id = ?`
unfoldable pub row_of : Text → List NodeRow → Option NodeRow
row_of id [] = none
row_of id (row ∷ rows) = let rest = row_of id rows in if row.id == id then some row else rest

-- `get`; none where it raises
unfoldable pub stored_node : Database → Text → Option (Option MemoryNode)
unfolding row_of to_node
stored_node db id = elim (row_of id db.nodes) [
  | none ↦ some none
  | some row ↦ elim (to_node row) [ none ↦ none | some node ↦ some (some node) ]
]

-- `neighbors`. The query names no order, so `listed` is the order in which the database lists rows.
unfoldable pub stored_edges :
    (List MemoryEdge → List MemoryEdge) → Database → Text → List MemoryEdge
stored_edges listed db id = listed (keep_if (λ edge. edge.src == id) db.edges)
