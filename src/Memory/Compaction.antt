-- ===== src/Memory/Compaction.antt =====
-- memory/compaction.py: older turns are dropped, and a header stands for them. The memory and the
-- summariser are ports: functions from the query, or from the dropped texts, to what is found.
pub mod Structure
use mathlib.Core.List.{reverse}
use parcus.Prelude.{
  ℕ, zero, suc, ◌+◌, ◌-◌, Bool, true, false, Option, none, some, List, [], ◌∷◌, ◌++◌, map, length,
  take, drop, leb, nat_eq, ◌==◌, is_empty, if◌then◌else◌,
}
use parcus.Text.{Text, codes, newline, join}
use parcus.Model.{Role, user, role_eq, Span, Message, message_text, CanonicalRequest}

abbrev pub context_header : Text
context_header = codes "Relevant earlier context (retrieved from memory):" ++ newline ∷ []

abbrev pub summary_header : Text
summary_header = codes "Conversation summary so far:" ++ newline ∷ []

-- The loop over the reversed messages; the last message where no user is found.
abbrev find_user : Text → List Message → Text
find_user last [] = last
find_user last (m ∷ ms) = if m.role == user then message_text m else find_user last ms

abbrev first_text : List Message → Text
first_text [] = []
first_text (m ∷ ms) = message_text m

unfoldable pub latest_user_text : List Message → Text
latest_user_text messages = find_user (first_text (reverse messages)) (reverse messages)

-- The role of a message, by its index.
unfoldable pub role_at : List Message → ℕ → Option Role
role_at [] i = none
role_at (m ∷ ms) zero = some m.role
role_at (m ∷ ms) (suc i) = role_at ms i

-- The search for the window: an index out of range raises.
pub data Search : Type 0 where
  raised absent : Search
  found : ℕ → Search

-- `for index in range(target, -1, -1)`
unfoldable pub user_at_or_before : List Message → ℕ → Search
unfolding role_at
user_at_or_before ms zero = elim (role_at ms zero) [
  | none ↦ raised
  | some role ↦ if role == user then found zero else absent
]
user_at_or_before ms (suc i) =
    let rest = user_at_or_before ms i in
    elim (role_at ms (suc i)) [
      | none ↦ raised
      | some role ↦ if role == user then found (suc i) else rest
    ]

unfoldable pub window_start : List Message → ℕ → Search
unfolding user_at_or_before
window_start ms keep_recent = user_at_or_before ms (length ms - keep_recent)

-- The first kept message gets the header in front, and loses its `raw`.
abbrev prepend : Text → List Message → List Message
prepend header [] = []
prepend header (m ∷ ms) =
    record {
      role = m.role;
      spans = record { text = header; mutable = false } ∷ m.spans;
      raw = none;
    }
    ∷ ms

unfoldable pub rewrite : CanonicalRequest → ℕ → Text → CanonicalRequest
rewrite r start header = record r {
  messages = prepend header (drop start r.messages);
  cache_breakpoint = none;
}

-- The guards that both strategies share: the start of the window, if there is anything to drop.
unfoldable pub droppable : List Message → ℕ → ℕ → Search
unfolding window_start
droppable ms keep_recent min_messages =
    if leb (length ms) min_messages then absent else elim (window_start ms keep_recent) [
      | raised ↦ raised
      | absent ↦ absent
      | found zero ↦ absent
      | found (suc start) ↦ found (suc start)
    ]

-- The result, and whether it is a new request (`compacted is not canonical`); none if it raises.
abbrev pub Compacted : Type 0
Compacted = Option (CanonicalRequest × Bool)

abbrev bullet : Text → Text
bullet snippet = codes "- " ++ snippet

-- `memory.relevant(query, limit=retrieve)` is the parameter `relevant`.
unfoldable pub compact_with_memory : CanonicalRequest → (Text → List Text) → ℕ → ℕ → Compacted
unfolding droppable rewrite latest_user_text
compact_with_memory r relevant keep_recent min_messages =
    elim (droppable r.messages keep_recent min_messages) [
      | raised ↦ none
      | absent ↦ some (r, false)
      | found start ↦
          let retrieved = relevant (latest_user_text r.messages) in
          if is_empty retrieved
          then some (r, false)
          else some (
            rewrite r start (
                context_header
                ++ (join (newline ∷ []) (map bullet retrieved) ++ newline ∷ newline ∷ [])),
            true,
          )
    ]

-- `summarizer.summarize(texts, max_items=…)` is the parameter `summarize`.
unfoldable pub compact_by_summary : CanonicalRequest → (List Text → Text) → ℕ → ℕ → Compacted
unfolding droppable rewrite
compact_by_summary r summarize keep_recent min_messages =
    elim (droppable r.messages keep_recent min_messages) [
      | raised ↦ none
      | absent ↦ some (r, false)
      | found start ↦
          let summary = summarize (map message_text (take start r.messages)) in
          if is_empty summary
          then some (r, false)
          else some (rewrite r start (summary_header ++ (summary ++ newline ∷ newline ∷ [])), true)
    ]
