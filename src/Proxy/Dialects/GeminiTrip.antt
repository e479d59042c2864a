-- ===== src/Proxy/Dialects/GeminiTrip.antt =====
-- proxy/dialects.py: a Gemini body that was parsed, written back and parsed again.
use mathlib.Core.Path.{subst}
use parcus.Prelude.{
  ◌≡◌, ◌⊎◌, refl, ap, sym, ◌∙◌, Bool, Option, none, some, List, [], ◌∷◌, Option-cases, Bool-cases,
  inl, inr, arith, nat_eq, list_eq,
}
use parcus.Text.{Text, codes}
use parcus.Json.{Value, Items, Fields, null, bool, num, str, arr, obj, nil, cons, get, put}
use parcus.Model.{Role, system, user, assistant, tool, Message, CanonicalRequest}
use parcus.Proxy.Dialects.Parse.{carried, plain, has_keys, parse_items, parse_messages}
use parcus.Proxy.Dialects.Gemini.{
  gemini_text, part_text, gemini_role, role_or_user, gemini_message, gemini_item, gemini_system,
  parse_gemini,
}
use parcus.Proxy.Dialects.Serialize.{
  gemini_role_value, write_gemini_message, write_contents, text_part, pair_of, put_system,
  system_instruction, serialize_gemini, write_body, serialize,
}
use parcus.Json.Laws.{get-put}
use parcus.Proxy.Dialects.Fields.{gemini_request, gemini_of, parse_gemini-of}
use parcus.Proxy.Dialects.Written.{message_text-plain, cons_message_inv}

role_again :
    (v : Option Value) (r : Role)
    → gemini_role v ≡ some r
    → gemini_role (some (str (gemini_role_value r))) ≡ some r
unfolding gemini_role
role_again v user h = refl
role_again v assistant h = refl
role_again v system h = ground arith
role_again v tool h = ground arith

abbrev as_turn : Role → Text → Fields
as_turn r text = pair_of (codes "role") (str (gemini_role_value r)) (codes "parts") (text_part text)

turn_again :
    (structured : Bool) (r : Role) (text : Text)
    → gemini_role (some (str (gemini_role_value r))) ≡ some r
    → gemini_message structured (as_turn r text) ≡ some (plain r text)
unfolding gemini_message has_keys gemini_text part_text get
turn_again structured r text h = rw (h, gemini_message) refl

read_turn :
    (structured : Bool) (item : Fields) (m : Message)
    → gemini_message structured item ≡ some m
    → (m ≡ carried (role_or_user (gemini_role (get (codes "role") item))) item)
      ⊎ ((r : Role) × (text : Text) × (gemini_role (get (codes "role") item) ≡ some r)
          × (m ≡ plain r text))
unfolding gemini_message
read_turn structured item m h = elim (Option-cases (gemini_role (get (codes "role") item))) [
  | inl e ↦ inl (ground arith)
  | inr (r, e) ↦ elim (Option-cases (gemini_text (obj item))) [
    | inl q ↦ inl (ground arith)
    | inr (text, q) ↦ elim (Bool-cases (has_keys (codes "role" ∷ codes "parts" ∷ []) item)) [
      | inl k ↦ inr (r, text, e, ground arith)
      | inr k ↦ inl (ground arith)
    ]
  ]
]

message_again :
    (structured : Bool) (item : Fields) (m : Message)
    → gemini_message structured item ≡ some m
    → gemini_message structured (write_gemini_message m) ≡ some m
unfolding write_gemini_message
message_again structured item m h = elim (read_turn structured item m h) [
  | inl e ↦ rw e (h ∙ ap some e)
  | inr (r, text, hr, e) ↦ rw e (
      ap (λ t. gemini_message structured (as_turn r t)) (message_text-plain r text)
      ∙ turn_again structured r text (role_again (get (codes "role") item) r hr))
]

item_again :
    (structured : Bool) (item : Value) (m : Message)
    → gemini_item structured item ≡ some m
    → gemini_item structured (obj (write_gemini_message m)) ≡ some m
unfolding gemini_item
item_again structured null m h = ground arith
item_again structured (bool b) m h = ground arith
item_again structured (num b t) m h = ground arith
item_again structured (str t) m h = ground arith
item_again structured (arr xs) m h = ground arith
item_again structured (obj fs) m h = message_again structured fs m h

contents_again :
    (structured : Bool) (items : Items) (ms : List Message)
    → parse_items (gemini_item structured) items ≡ some ms
    → parse_items (gemini_item structured) (write_contents ms) ≡ some ms
unfolding parse_items write_contents
contents_again structured nil [] h = refl
contents_again structured nil (m ∷ ms) h = ground arith
contents_again structured (cons item rest) ms h =
    let (m, tail, hm, hs, e) = cons_message_inv _ _ ms h in
    subst (λ xs. parse_items (gemini_item structured) (write_contents xs) ≡ some xs) (sym e)
      (rw (item_again structured item m hm) (rw (contents_again structured rest tail hs) refl))

reread_contents :
    (structured : Bool) (v : Option Value) (ms : List Message)
    → parse_messages (gemini_item structured) v ≡ some ms
    → parse_messages (gemini_item structured) (some (arr (write_contents ms))) ≡ some ms
unfolding parse_messages
reread_contents structured none ms h = ground arith
reread_contents structured (some (arr items)) ms h = contents_again structured items ms h
reread_contents structured (some null) ms h = ground arith
reread_contents structured (some (bool b)) ms h = ground arith
reread_contents structured (some (num b t)) ms h = ground arith
reread_contents structured (some (str t)) ms h = ground arith
reread_contents structured (some (obj fs)) ms h = ground arith

abbrev written : Option Text → List Message → Fields → Fields
written prompt ms body =
    put_system (codes "systemInstruction") system_instruction prompt
      (put (codes "contents") (arr (write_contents ms)) body)

instruction_again : (t : Text) → gemini_system (some (system_instruction t)) ≡ some (some t)
unfolding gemini_system gemini_text part_text has_keys get
instruction_again t = refl

system_again :
    (prompt : Option Text) (ms : List Message) (body : Fields)
    → gemini_system (get (codes "systemInstruction") body) ≡ some prompt
    → gemini_system (get (codes "systemInstruction") (written prompt ms body)) ≡ some prompt
system_again none ms body h =
    ap gemini_system
      (get-put (codes "systemInstruction") (codes "contents") (arr (write_contents ms)) body)
    ∙ h
system_again (some prompt) ms body h =
    ap gemini_system (
      get-put (codes "systemInstruction") (codes "systemInstruction") (system_instruction prompt) _)
    ∙ instruction_again prompt

get-contents_written :
    (prompt : Option Text) (ms : List Message) (body : Fields)
    → get (codes "contents") (written prompt ms body) ≡ some (arr (write_contents ms))
get-contents_written none ms body = get-put (codes "contents") (codes "contents") _ body
get-contents_written (some prompt) ms body =
    get-put (codes "contents") (codes "systemInstruction") _ _
    ∙ get-put (codes "contents") (codes "contents") _ body

get-tools_written :
    (prompt : Option Text) (ms : List Message) (body : Fields)
    → get (codes "tools") (written prompt ms body) ≡ get (codes "tools") body
get-tools_written none ms body = get-put (codes "tools") (codes "contents") _ body
get-tools_written (some prompt) ms body =
    get-put (codes "tools") (codes "systemInstruction") _ _
    ∙ get-put (codes "tools") (codes "contents") _ body

gemini_of_inv :
    (structured : Bool) (name : Option Text) (prompt items tools : Option Value)
    (r : CanonicalRequest)
    → gemini_of structured name prompt items tools ≡ some r
    → (text : Option Text) × (ms : List Message) × (gemini_system prompt ≡ some text)
      × (parse_messages (gemini_item structured) items ≡ some ms)
      × (r ≡ gemini_request name text ms tools)
gemini_of_inv structured name prompt items tools r h = elim (Option-cases (gemini_system prompt)) [
  | inl e ↦ ground arith
  | inr (text, e) ↦ elim (Option-cases (parse_messages (gemini_item structured) items)) [
    | inl q ↦ ground arith
    | inr (ms, q) ↦ (text, ms, e, q, ground arith)
  ]
]

-- With structured messages or without: if a Gemini body is parsed into a request, then the body
-- that `serialize` writes for this request is parsed into the same request.
pub reparse_gemini :
    (body : Fields) (structured : Bool) (name : Option Text) (r : CanonicalRequest)
    → parse_gemini body structured name ≡ some r
    → parse_gemini (serialize r body) structured name ≡ some r
unfolding serialize write_body serialize_gemini
reparse_gemini body structured name r h =
    let (prompt, ms, hs, hm, e) =
      gemini_of_inv structured name _ _ (get (codes "tools") body) r
        (sym (parse_gemini-of body structured name) ∙ h) in
    subst (λ q. parse_gemini (serialize q body) structured name ≡ some q) (sym e)
      (parse_gemini-of (written prompt ms body) structured name
        ∙ rw
            (
              system_again prompt ms body hs,
              get-contents_written prompt ms body,
              get-tools_written prompt ms body,
            )
            (rw (reread_contents structured (get (codes "contents") body) ms hm) refl))
