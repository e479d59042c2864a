-- ===== src/Proxy/Dialects/Serialize.antt =====
-- proxy/dialects.py: the canonical request is written into the provider's body.
use parcus.Prelude.{
  ℕ, ◌+◌, Bool, Option, none, some, List, [], ◌∷◌, length, ltb, nat_eq, list_eq, option_eq, ◌==◌,
  if◌then◌else◌,
}
use parcus.Text.{Text, codes}
use parcus.Json.{Value, Items, Fields, str, arr, obj, nil, cons, end, field, get, put, as_arr}
use parcus.Model.{
  Role, assistant, role_eq, Dialect, anthropic, gemini, Message, message_text, CanonicalRequest,
}
use parcus.Cache.Policy.{role_value}
use parcus.Proxy.Dialects.Gemini.{and_then}

abbrev pub ephemeral : Value
ephemeral = obj (field (codes "type") (str (codes "ephemeral")) end)

unfoldable pub mark_last : Items → Option Items
unfolding put
mark_last nil = none
mark_last (cons (obj block) nil) =
    some (cons (obj (put (codes "cache_control") ephemeral block)) nil)
mark_last (cons item nil) = none
mark_last (cons item (cons next rest)) = elim (mark_last (cons next rest)) [
  | none ↦ none
  | some marked ↦ some (cons item marked)
]

unfoldable pub mark_raw : Fields → Fields
unfolding get put mark_last
mark_raw raw = elim (and_then (as_arr (get (codes "content") raw)) mark_last) [
  | none ↦ raw
  | some items ↦ put (codes "content") (arr items) raw
]

unfoldable pub breakpoint_index : CanonicalRequest → Option ℕ
breakpoint_index r = elim (r.dialect) [
  | anthropic ↦
      and_then (r.cache_breakpoint) (λ i. if ltb i (length (r.messages)) then some i else none)
  | _ ↦ none
]

abbrev pub marked_text : Text → Value
marked_text text = arr (
    cons
      (obj (
        field (codes "type") (str (codes "text"))
          (field (codes "text") (str text) (field (codes "cache_control") ephemeral end))))
      nil)

abbrev pub pair_of : Text → Value → Text → Value → Fields
pair_of k v k' v' = field k v (field k' v' end)

unfoldable pub write_message : Bool → Message → Fields
unfolding mark_raw role_value message_text
write_message is_marked m = elim (m.raw) [
  | some raw ↦ if is_marked then mark_raw raw else raw
  | none ↦
      pair_of (codes "role") (str (role_value (m.role))) (codes "content")
        (if is_marked then marked_text (message_text m) else str (message_text m))
]

-- The messages from index `i` on; the breakpoint is counted from the first.
unfoldable pub write_messages : Option ℕ → ℕ → List Message → Items
unfolding write_message
write_messages at i [] = nil
write_messages at i (m ∷ ms) =
    cons (obj (write_message (at == some i) m)) (write_messages at (i + 1) ms)

abbrev pub gemini_role_value : Role → Text
gemini_role_value assistant = codes "model"
gemini_role_value _ = codes "user"

abbrev pub text_part : Text → Value
text_part text = arr (cons (obj (field (codes "text") (str text) end)) nil)

unfoldable pub write_gemini_message : Message → Fields
unfolding message_text
write_gemini_message m = elim (m.raw) [
  | some raw ↦ raw
  | none ↦
      pair_of (codes "role") (str (gemini_role_value (m.role))) (codes "parts")
        (text_part (message_text m))
]

unfoldable pub write_contents : List Message → Items
unfolding write_gemini_message
write_contents [] = nil
write_contents (m ∷ ms) = cons (obj (write_gemini_message m)) (write_contents ms)

-- The base with `key` set, if there is a system prompt.
abbrev pub put_system : Text → (Text → Value) → Option Text → Fields → Fields
put_system key as_value none body = body
put_system key as_value (some prompt) body = put key (as_value prompt) body

abbrev pub system_instruction : Text → Value
system_instruction prompt = obj (field (codes "parts") (text_part prompt) end)

unfoldable pub serialize_gemini : CanonicalRequest → Fields → Fields
unfolding write_contents put
serialize_gemini r body =
    put_system (codes "systemInstruction") system_instruction (r.system)
      (put (codes "contents") (arr (write_contents (r.messages))) body)

unfoldable pub write_body : Dialect → CanonicalRequest → Fields → Fields
unfolding serialize_gemini write_messages breakpoint_index put
write_body gemini r body = serialize_gemini r body
write_body anthropic r body =
    put_system (codes "system") str (r.system)
      (put (codes "messages") (arr (write_messages (breakpoint_index r) 0 (r.messages))) body)
write_body _ r body =
    put (codes "messages") (arr (write_messages (breakpoint_index r) 0 (r.messages))) body

unfoldable pub serialize : CanonicalRequest → Fields → Fields
unfolding write_body
serialize r body = write_body (r.dialect) r body
