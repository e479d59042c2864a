-- ===== src/Memory/Graph.antt =====
-- memory/model.py, memory/store.py (the store in memory) and memory/ingest.py: a graph of the turns of
-- the conversations. SHA-256 and `str.lower` are parameters; vectors are not modelled.
pub mod Integrity
use parcus.Prelude.{
  ℕ, Bool, true, false, Option, none, some, List, [], ◌∷◌, ◌++◌, map, length, take, keep_if, lookup,
  insert, is_empty, nat_eq, list_eq, ◌==◌, if◌then◌else◌,
}
use parcus.Text.{Text, codes, strip}
use parcus.Model.{Message, message_text, CanonicalRequest, text_or_empty}
use parcus.Memory.Terms.{extract_terms}

pub data MemoryKind : Type 0 where
  turn fact entity decision : MemoryKind

abbrev pub kind_value : MemoryKind → Text
kind_value turn = codes "turn"
kind_value fact = codes "fact"
kind_value entity = codes "entity"
kind_value decision = codes "decision"

-- `node_id`
unfoldable pub node_id : (Text → Text) → MemoryKind → Text → Text
node_id sha256_hex kind text =
    kind_value kind ++ (58 ∷ take 16 (sha256_hex (kind_value kind ++ (0 ∷ text))))

pub record MemoryNode : Type 0 where
  pub id : Text
  pub kind : MemoryKind
  pub text : Text
  pub terms : List Text

pub record MemoryEdge : Type 0 where
  pub src : Text
  pub dst : Text
  pub kind : Text

-- `InMemoryGraphStore`
pub record GraphStore : Type 0 where
  pub nodes : List (Text × MemoryNode)
  pub edges : List MemoryEdge

abbrev pub new_store : GraphStore
new_store = record { nodes = []; edges = [] }

unfoldable pub add_node : GraphStore → MemoryNode → GraphStore
unfolding insert
add_node store node = record store { nodes = insert node.id node store.nodes }

unfoldable pub add_edge : GraphStore → MemoryEdge → GraphStore
add_edge store edge = record store { edges = store.edges ++ edge ∷ [] }

-- `get`
unfoldable pub get_node : GraphStore → Text → Option MemoryNode
unfolding lookup
get_node store id = lookup id store.nodes

unfoldable pub neighbors : GraphStore → Text → List MemoryEdge
neighbors store id = keep_if (λ edge. edge.src == id) store.edges

module _ (lower sha256_hex : Text → Text) where
  -- `_add`
  unfoldable pub add_text : GraphStore → MemoryKind → Text → GraphStore × Text
  unfolding add_node node_id extract_terms
  add_text store kind text =
      let id = node_id sha256_hex kind text in
      (
        add_node store
            (record { id = id; kind = kind; text = text; terms = extract_terms lower text }),
        id,
      )

  -- `if previous is not None`
  unfoldable pub follow : GraphStore → Option Text → Text → GraphStore
  unfolding add_edge
  follow store none id = store
  follow store (some previous) id =
      add_edge store (record { src = previous; dst = id; kind = codes "follows" })

  -- The loop over the messages.
  unfoldable pub ingest_turns : GraphStore → Option Text → List Message → GraphStore × List Text
  unfolding add_text follow message_text strip
  ingest_turns store previous [] = (store, [])
  ingest_turns store previous (m ∷ ms) =
      let text = strip (message_text m) in
      let (added, id) = add_text store turn text in
      let (next, last, new) : GraphStore × Option Text × List Text =
        if is_empty text
        then (store, previous, [])
        else (follow added previous id, some id, id ∷ []) in
      let (grown, ids) = ingest_turns next last ms in (grown, new ++ ids)

  -- `ingest_request`
  unfoldable pub ingest_request : GraphStore → CanonicalRequest → GraphStore × List Text
  unfolding add_text ingest_turns strip
  ingest_request store r =
      let system = strip (text_or_empty r.system) in
      let (added, id) = add_text store fact system in
      let (start, new) : GraphStore × List Text =
        if is_empty system then (store, []) else (added, id ∷ []) in
      let (grown, ids) = ingest_turns start none r.messages in (grown, new ++ ids)
