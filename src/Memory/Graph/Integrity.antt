-- ===== src/Memory/Graph/Integrity.antt =====
-- memory/ingest.py: the edges of the graph join nodes of the graph.
use mathlib.Core.Path.{subst}
use parcus.Prelude.{
  ◌≡◌, refl, ◌∙◌, Option, none, some, List, [], ◌∷◌, All, All-map, All-append, lookup-insert,
  is_empty, Bool-cases, inl, inr, nat_eq, list_eq, ◌==◌, beq_refl,
}
use parcus.Text.{Text, codes, strip}
use parcus.Model.{Message, message_text, CanonicalRequest, text_or_empty}
use parcus.Memory.Terms.{extract_terms}
use parcus.Memory.Graph.{
  MemoryKind, turn, fact, MemoryNode, MemoryEdge, GraphStore, add_node, add_edge, get_node, node_id,
  add_text, follow, ingest_turns, ingest_request,
}

-- A node of that id is in the graph.
abbrev pub Holds : GraphStore → Text → Type 0
Holds store id = (node : MemoryNode) × (get_node store id ≡ some node)

abbrev pub Joins : GraphStore → MemoryEdge → Type 0
Joins store edge = Holds store edge.src × Holds store edge.dst

abbrev pub IsClosed : GraphStore → Type 0
IsClosed store = All (Joins store) store.edges

abbrev pub Grows : GraphStore → GraphStore → Type 0
Grows store grown = (id : Text) → Holds store id → Holds grown id

add_node-Grows :
    (store : GraphStore) (node : MemoryNode)
    → Grows store (add_node store node) × Holds (add_node store node) node.id
unfolding add_node get_node
add_node-Grows store node = (
  λ id (found, e). elim (Bool-cases (node.id == id)) [
    | inl q ↦ (node, lookup-insert id node.id node store.nodes ∙ rw q refl)
    | inr q ↦ (found, lookup-insert id node.id node store.nodes ∙ rw q e)
  ],
  (node, lookup-insert node.id node.id node store.nodes ∙ rw (beq_refl node.id) refl),
)

-- What a step does to a closed graph: it stays closed, and loses no node.
abbrev pub Extends : GraphStore → GraphStore → Type 0
Extends store grown = (IsClosed store → IsClosed grown) × Grows store grown

Extends-refl : (store : GraphStore) → Extends store store
Extends-refl store = (λ h. h, λ id h. h)

Extends-trans : (r s t : GraphStore) → Extends r s → Extends s t → Extends r t
Extends-trans r s t (c, g) (d, h) = (λ q. d (c q), λ id q. h id (g id q))

module _ (lower sha256_hex : Text → Text) where
  add_text-Extends :
      (store : GraphStore) (kind : MemoryKind) (text : Text)
      → Extends store (add_text lower sha256_hex store kind text).0
        × Holds
            (add_text lower sha256_hex store kind text).0
            (add_text lower sha256_hex store kind text).1
  unfolding add_text add_node
  add_text-Extends store kind text =
      let node : MemoryNode = record {
        id = node_id sha256_hex kind text;
        kind = kind;
        text = text;
        terms = extract_terms lower text;
      } in
      let (grows, held) = add_node-Grows store node in
      (
        (λ closed. All-map (λ e (s, d). (grows e.src s, grows e.dst d)) store.edges closed, grows),
        held,
      )

  follow-Extends :
      (store : GraphStore) (previous : Option Text) (id : Text)
      → ((p : Text) → previous ≡ some p → Holds store p)
      → Holds store id
      → Extends store (follow lower sha256_hex store previous id)
  unfolding follow add_edge get_node
  follow-Extends store none id before held = Extends-refl store
  follow-Extends store (some p) id before held = (
    λ closed.
        All-append _ store.edges (record { src = p; dst = id; kind = codes "follows" } ∷ []) closed
          ((before p refl, held), tt),
    λ i h. h,
  )

  ingest_turns-Extends :
      (store : GraphStore) (previous : Option Text) (messages : List Message)
      → ((p : Text) → previous ≡ some p → Holds store p)
      → Extends store (ingest_turns lower sha256_hex store previous messages).0
        × All
            (Holds (ingest_turns lower sha256_hex store previous messages).0)
            (ingest_turns lower sha256_hex store previous messages).1
  unfolding ingest_turns
  ingest_turns-Extends store previous [] before = (Extends-refl store, tt)
  ingest_turns-Extends store previous (m ∷ ms) before =
      let text = strip (message_text m) in
      let (added, id) = add_text lower sha256_hex store turn text in
      let next = follow lower sha256_hex added previous id in
      let (adds, held) = add_text-Extends store turn text in
      let follows = follow-Extends added previous id (λ p q. adds.1 p (before p q)) held in
      elim (Bool-cases (is_empty text)) [
        | inl blank ↦ rw (blank, ingest_turns) (ingest_turns-Extends store previous ms before)
        | inr said ↦
            let (rest, ids) =
              ingest_turns-Extends next (some id) ms
                (λ p q. subst (Holds next) (cc q) (follows.1 id held)) in
            rw (said, ingest_turns)
              (
                Extends-trans store next _ (Extends-trans store added next adds follows) rest,
                (rest.1 id (follows.1 id held), ids),
              )
      ]

  -- Whatever is ingested, a graph whose edges join nodes of the graph stays so, loses no node, and has
  -- a node for each id that `ingest_request` returns.
  pub ingest_request-Extends :
      (store : GraphStore) (r : CanonicalRequest)
      → Extends store (ingest_request lower sha256_hex store r).0
        × All
            (Holds (ingest_request lower sha256_hex store r).0)
            (ingest_request lower sha256_hex store r).1
  unfolding ingest_request
  ingest_request-Extends store r =
      let system = strip (text_or_empty r.system) in
      let (added, id) = add_text lower sha256_hex store fact system in
      let (adds, held) = add_text-Extends store fact system in
      let (rest, ids) = ingest_turns-Extends added none r.messages (λ p q. absurd (cc q)) in
      elim (Bool-cases (is_empty system)) [
        | inl blank ↦
            rw (blank, ingest_request)
              (ingest_turns-Extends store none r.messages (λ p q. absurd (cc q)))
        | inr said ↦
            rw (said, ingest_request) (Extends-trans store added _ adds rest, (rest.1 id held, ids))
      ]
