-- ===== src/Proxy/Dialects/Parse.antt =====
-- proxy/dialects.py: the dialect of a path, and the Anthropic and OpenAI bodies.
use mathlib.Core.List.{reverse}
use parcus.Prelude.{
  Bool, true, false, ◌&&◌, ◌||◌, Option, none, some, List, [], ◌∷◌, contains, nat_eq, list_eq,
  option_eq, ◌==◌, if◌then◌else◌,
}
use parcus.Text.{Text, codes, cut, after_prefix}
use parcus.Json.{
  Value, Items, Fields, null, bool, num, str, arr, obj, nil, cons, end, field, get, keys, as_str,
  as_arr, dumps, canonical_style,
}
use parcus.Model.{
  Role, system, user, assistant, tool, role_eq, Dialect, anthropic, openai, gemini, unknown,
  Message, CanonicalRequest,
}
use parcus.Spans.{classify_spans}

-- `path.endswith(suffix)`
unfoldable pub ends_with : Text → Text → Bool
unfolding after_prefix
ends_with suffix path = elim (after_prefix (reverse suffix) (reverse path)) [
  | none ↦ false
  | some _ ↦ true
]

unfoldable pub detect : Text → Dialect
unfolding ends_with
detect path =
    if ends_with (codes "/v1/messages") path
    then anthropic
    else if ends_with (codes "/v1/chat/completions") path
    then openai
    else if ends_with (codes ":generateContent") path
        || ends_with (codes ":streamGenerateContent") path
    then gemini
    else unknown

-- The text after the last slash.
unfoldable pub last_segment : Text → Text
unfolding cut
last_segment path = elim (cut (codes "/") (reverse path)) [ none ↦ path | some (s, _) ↦ reverse s ]

-- The model id of a Gemini path, if it has the form `…/<model>:<method>`.
unfoldable pub gemini_model_from_path : Text → Option Text
unfolding last_segment
gemini_model_from_path path = elim (cut (codes ":") (last_segment path)) [
  | some (c ∷ name, d ∷ method) ↦ some (c ∷ name)
  | _ ↦ none
]

-- `Role(value)`, or none where it raises.
unfoldable pub role_of : Option Value → Option Role
role_of (some (str s)) =
    if s == codes "system"
    then some system
    else if s == codes "user"
    then some user
    else if s == codes "assistant"
    then some assistant
    else if s == codes "tool"
    then some tool
    else none
role_of _ = none

unfoldable pub tools_json_of : Fields → Option Text
unfolding get
tools_json_of body = elim (get (codes "tools") body) [
  | none ↦ none
  | some null ↦ none
  | some tools ↦ some (dumps canonical_style tools)
]

-- `bool(value)`
unfoldable pub truth : Option Value → Bool
truth none = false
truth (some null) = false
truth (some (bool b)) = b
truth (some (num nonzero _)) = nonzero
truth (some (str [])) = false
truth (some (str (c ∷ s))) = true
truth (some (arr nil)) = false
truth (some (arr (cons _ _))) = true
truth (some (obj end)) = false
truth (some (obj (field _ _ _))) = true

unfoldable pub includes : List Text → List Text → Bool
includes [] ys = true
includes (x ∷ xs) ys = contains x ys && includes xs ys

-- `set(item.keys()) == {…}`
unfoldable pub has_keys : List Text → Fields → Bool
unfolding includes keys
has_keys names item = includes (keys item) names && includes names (keys item)

abbrev pub value_or_null : Option Value → Value
value_or_null none = null
value_or_null (some v) = v

abbrev pub anthropic_roles : List Role
anthropic_roles = user ∷ assistant ∷ []

abbrev pub openai_roles : List Role
openai_roles = system ∷ user ∷ assistant ∷ []

abbrev pub carried : Role → Fields → Message
carried role item = record { role = role; spans = []; raw = some item }

abbrev pub plain : Role → Text → Message
plain role text = record { role = role; spans = classify_spans text; raw = none }

-- The text of a plain message: exactly the keys `role` and `content`, the latter a string.
unfoldable pub plain_content : List Role → Role → Fields → Option Text
unfolding has_keys get
plain_content text_roles role item =
    if contains role text_roles && has_keys (codes "role" ∷ codes "content" ∷ []) item
    then as_str (get (codes "content") item)
    else none

unfoldable pub message_of : Role → Fields → List Role → Bool → Option Message
unfolding plain_content
message_of role item text_roles structured = elim (plain_content text_roles role item) [
  | some text ↦ some (plain role text)
  | none ↦ if structured then some (carried role item) else none
]

abbrev pub as_obj : Value → Option Fields
as_obj (obj fs) = some fs
as_obj _ = none

-- One item of `messages`.
unfoldable pub parse_item : List Role → Bool → Value → Option Message
unfolding message_of role_of get
parse_item text_roles structured item = elim (as_obj item) [
  | none ↦ none
  | some fs ↦ elim (role_of (get (codes "role") fs)) [
    | none ↦ none
    | some role ↦ message_of role fs text_roles structured
  ]
]

abbrev pub cons_message : Option Message → Option (List Message) → Option (List Message)
cons_message (some m) (some ms) = some (m ∷ ms)
cons_message _ _ = none

unfoldable pub parse_items : (Value → Option Message) → Items → Option (List Message)
parse_items parse_one nil = some []
parse_items parse_one (cons item rest) = cons_message (parse_one item) (parse_items parse_one rest)

unfoldable pub parse_messages : (Value → Option Message) → Option Value → Option (List Message)
unfolding parse_items
parse_messages parse_one value = elim (as_arr value) [
  | none ↦ none
  | some items ↦ parse_items parse_one items
]

-- `body.get("system")`: none if it is no string and not missing.
abbrev pub system_of : Option Value → Option (Option Text)
system_of none = some none
system_of (some null) = some none
system_of (some (str s)) = some (some s)
system_of (some _) = none

unfoldable pub parse_anthropic : Fields → Bool → Option CanonicalRequest
unfolding parse_messages parse_item truth tools_json_of
parse_anthropic body structured = elim (system_of (get (codes "system") body)) [
  | none ↦ none
  | some prompt ↦
      elim (parse_messages (parse_item anthropic_roles structured) (get (codes "messages") body)) [
        | none ↦ none
        | some messages ↦ some (record {
          dialect = anthropic;
          model = value_or_null (get (codes "model") body);
          messages = messages;
          system = prompt;
          stream = truth (get (codes "stream") body);
          tools_json = tools_json_of body;
          cache_breakpoint = none;
        })
      ]
]

unfoldable pub parse_openai : Fields → Bool → Option CanonicalRequest
unfolding parse_messages parse_item truth tools_json_of
parse_openai body structured =
    elim (parse_messages (parse_item openai_roles structured) (get (codes "messages") body)) [
      | none ↦ none
      | some messages ↦ some (record {
        dialect = openai;
        model = value_or_null (get (codes "model") body);
        messages = messages;
        system = none;
        stream = truth (get (codes "stream") body);
        tools_json = tools_json_of body;
        cache_breakpoint = none;
      })
    ]
