-- ===== src/Memory/Persisted/Agreement.antt =====
-- memory/sqlite_store.py and memory/store.py: the graph in a database answers as the one in memory.
use mathlib.Core.Path.{subst}
use mathlib.Core.List.{Perm}
use parcus.Prelude.{
  ◌≡◌, refl, ◌∙◌, true, not, Option, none, some, List, [], ◌∷◌, ◌++◌, keep_if, lookup,
  lookup-insert, All, contains, map_option, Bool-cases, Option-cases, inl, inr, arith, ◌==◌, nat_eq,
  list_eq, list_beq_iff, if◌then◌else◌,
}
use parcus.Text.{Text, blank, join, words}
use parcus.Text.Sets.{sorted, contains-sorted, All-sorted}
use parcus.Text.Words.{IsWord, words-join-words}
use parcus.Memory.Terms.{distinct}
use parcus.Memory.Graph.{
  MemoryKind, turn, fact, entity, decision, kind_value, MemoryNode, MemoryEdge, GraphStore,
  new_store, add_node, add_edge, get_node, neighbors,
}
use parcus.Memory.Persisted.{
  NodeRow, Database, new_database, to_row, to_node, kind_of, put_node, put_edge, row_of,
  stored_node, stored_edges,
}

pub data Write : Type 0 where
  of_node : MemoryNode → Write
  of_edge : MemoryEdge → Write

abbrev pub in_memory : List Write → GraphStore → GraphStore
unfolding add_node add_edge
in_memory [] store = store
in_memory (of_node node ∷ ws) store = in_memory ws (add_node store node)
in_memory (of_edge edge ∷ ws) store = in_memory ws (add_edge store edge)

abbrev pub in_database : List Write → Database → Database
unfolding put_node put_edge
in_database [] db = db
in_database (of_node node ∷ ws) db = in_database ws (put_node db node)
in_database (of_edge edge ∷ ws) db = in_database ws (put_edge db edge)

-- The terms of the nodes are words, as `extract_terms` gives them.
abbrev pub HasWords : Write → Type 0
HasWords (of_node node) = All IsWord node.terms
HasWords (of_edge edge) = Unit

-- The same node, with its terms as a set.
abbrev pub IsSameNode : MemoryNode → MemoryNode → Type 0
IsSameNode m n =
    (m.id ≡ n.id)
    × (m.kind ≡ n.kind)
    × (m.text ≡ n.text)
    × ((t : Text) → contains t m.terms ≡ contains t n.terms)

abbrev pub IsSameAnswer : Option (Option MemoryNode) → Option MemoryNode → Type 0
IsSameAnswer none n = ⊥
IsSameAnswer (some none) none = Unit
IsSameAnswer (some none) (some n) = ⊥
IsSameAnswer (some (some m)) none = ⊥
IsSameAnswer (some (some m)) (some n) = IsSameNode m n

kind_of-kind_value : (k : MemoryKind) → kind_of (kind_value k) ≡ some k
unfolding kind_of
kind_of-kind_value turn = refl
kind_of-kind_value fact = refl
kind_of-kind_value entity = refl
kind_of-kind_value decision = refl

contains-distinct : (t : Text) (ts : List Text) → contains t (distinct ts) ≡ contains t ts
unfolding distinct
contains-distinct t [] = refl
contains-distinct t (x ∷ ts) = elim (Bool-cases (contains x (distinct ts))) [
  | inl e ↦ elim (Bool-cases (t == x)) [
    | inl q ↦
        let same : t ≡ x = (list_beq_iff t x).0 q in
        let held : contains t (distinct ts) ≡ true = rw same e in rw (e, distinct, q) held
    | inr q ↦ rw (e, distinct, q) (contains-distinct t ts)
  ]
  | inr e ↦ rw (e, distinct) (rw (contains-distinct t ts) refl)
]

to_node-to_row :
    (node : MemoryNode)
    → All IsWord node.terms
    → (m : MemoryNode) × (to_node (to_row node) ≡ some m) × IsSameNode m node
unfolding to_node to_row
to_node-to_row node h =
    let terms = sorted node.terms in
    let read : words (join (blank ∷ []) terms) ≡ terms =
      words-join-words terms (All-sorted IsWord node.terms h) in
    let m : MemoryNode = record node { terms = distinct (words (join (blank ∷ []) terms)) } in
    (
      m,
      rw (to_node, kind_of-kind_value node.kind) refl,
      (refl, refl, refl, λ t. rw (contains-distinct t, read) (contains-sorted t node.terms)),
    )

row_of-keep_if :
    (id gone : Text) (row : NodeRow) (rows : List NodeRow)
    → row.id ≡ gone
    → row_of id (keep_if (λ r. not (r.id == gone)) rows ++ row ∷ [])
      ≡ (if gone == id then some row else row_of id rows)
unfolding row_of
row_of-keep_if id gone row [] h = rw h refl
row_of-keep_if id gone row (r ∷ rows) h =
    let rest = row_of-keep_if id gone row rows h in
    elim (Bool-cases (r.id == gone)) [
      | inl q ↦
          rw q (
            ground
              (arith, rest, list_beq_iff r.id gone, list_beq_iff r.id id, list_beq_iff gone id))
      | inr q ↦
          rw q (
            ground
              (arith, rest, list_beq_iff r.id gone, list_beq_iff r.id id, list_beq_iff gone id))
    ]

-- The tables hold what the graph in memory holds, and its terms are words.
record Mirrors (db : Database) (store : GraphStore) : Type 0 where
  rows : (id : Text) → row_of id db.nodes ≡ map_option to_row (lookup id store.nodes)
  worded : (id : Text) (n : MemoryNode) → lookup id store.nodes ≡ some n → All IsWord n.terms
  same_edges : db.edges ≡ store.edges

put_node-Mirrors :
    (db : Database) (store : GraphStore) (node : MemoryNode)
    → All IsWord node.terms
    → Mirrors db store
    → Mirrors (put_node db node) (add_node store node)
unfolding put_node add_node to_row
put_node-Mirrors db store node w m = record {
  rows = λ id.
      row_of-keep_if id node.id (to_row node) db.nodes refl
      ∙ rw (lookup-insert id node.id node store.nodes, m.rows id)
          (elim (Bool-cases (node.id == id)) [ inl q ↦ rw q refl | inr q ↦ rw q refl ]);
  worded = λ id n h.
      let held = rw (lookup-insert id node.id node store.nodes) at h in
      elim (Bool-cases (node.id == id)) [
        | inl q ↦
            let same : node ≡ n = cc (rw q at held) in
            subst (λ (o : MemoryNode). All IsWord o.terms) same w
        | inr q ↦ m.worded id n (rw q at held)
      ];
  same_edges = m.same_edges;
}

in_database-Mirrors :
    (ws : List Write) (db : Database) (store : GraphStore)
    → All HasWords ws
    → Mirrors db store
    → Mirrors (in_database ws db) (in_memory ws store)
unfolding put_edge add_edge in_database in_memory
in_database-Mirrors [] db store h m = m
in_database-Mirrors (of_node node ∷ ws) db store (w, h) m =
    in_database-Mirrors ws (put_node db node) (add_node store node) h
      (put_node-Mirrors db store node w m)
in_database-Mirrors (of_edge edge ∷ ws) db store (w, h) m =
    in_database-Mirrors ws (put_edge db edge) (add_edge store edge) h
      (record { rows = m.rows; worded = m.worded; same_edges = rw m.same_edges refl })

new_database-Mirrors : Mirrors new_database new_store
unfolding row_of lookup
new_database-Mirrors = record {
  rows = λ id. refl;
  worded = λ id n h. absurd (cc h);
  same_edges = refl;
}

stored_node-IsSameAnswer :
    (db : Database) (store : GraphStore) (id : Text)
    → Mirrors db store
    → IsSameAnswer (stored_node db id) (get_node store id)
unfolding stored_node get_node
stored_node-IsSameAnswer db store id m = elim (Option-cases (lookup id store.nodes)) [
  | inl e ↦
      let empty : stored_node db id ≡ some none = rw (stored_node, m.rows id) (rw e refl) in
      let missing : get_node store id ≡ none = e in rw (empty, missing) tt
  | inr (n, e) ↦
      let (found, read, same) = to_node-to_row n (m.worded id n e) in
      let read_back : stored_node db id ≡ some (some found) =
        rw (stored_node, m.rows id) (rw (e, read) refl) in
      let held : get_node store id ≡ some n = e in rw (read_back, held) same
]

-- Whatever nodes and edges are added, in any order and with repeated ids, the database never fails to
-- read a node back; it finds a node exactly where the store in memory does, with the same id, kind and
-- text and the same set of terms; and it lists the same edges from each node, each as often, in
-- whatever order it lists rows. The terms are words, as those taken from a text are.
pub in_database-agrees :
    (listed : List MemoryEdge → List MemoryEdge)
    → ((rows : List MemoryEdge) → Perm (listed rows) rows)
    → (ws : List Write) → All HasWords ws
    → (id : Text)
    → IsSameAnswer
        (stored_node (in_database ws new_database) id)
        (get_node (in_memory ws new_store) id)
      × Perm
          (stored_edges listed (in_database ws new_database) id)
          (neighbors (in_memory ws new_store) id)
unfolding stored_edges neighbors
in_database-agrees listed lists ws h id =
    let m = in_database-Mirrors ws new_database new_store h new_database-Mirrors in
    (
      stored_node-IsSameAnswer (in_database ws new_database) (in_memory ws new_store) id m,
      rw m.same_edges (lists (keep_if (λ edge. edge.src == id) (in_memory ws new_store).edges)),
    )
