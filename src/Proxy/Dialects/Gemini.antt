-- ===== src/Proxy/Dialects/Gemini.antt =====
-- proxy/dialects.py: the Gemini bodies, and `parse` for every dialect.
use parcus.Prelude.{
  Bool, false, ◌||◌, Option, none, some, [], ◌∷◌, nat_eq, list_eq, option_eq, ◌==◌, if◌then◌else◌,
}
use parcus.Text.{Text, codes}
use parcus.Json.{Value, Fields, null, str, arr, obj, nil, cons, get, as_str}
use parcus.Model.{
  Role, user, assistant, role_eq, Dialect, anthropic, openai, gemini, unknown, Message,
  CanonicalRequest,
}
use parcus.Proxy.Dialects.Parse.{
  tools_json_of, has_keys, carried, plain, as_obj, parse_messages, parse_anthropic, parse_openai,
}

-- `_gemini_text`: the text of a content that has a single text part.
abbrev pub as_part : Value → Option Fields
as_part (arr (cons (obj part) nil)) = some part
as_part _ = none

unfoldable pub part_text : Fields → Option Text
unfolding has_keys get
part_text part =
    if has_keys (codes "text" ∷ []) part then as_str (get (codes "text") part) else none

abbrev pub and_then : {A B : Type 0} → Option A → (A → Option B) → Option B
and_then none f = none
and_then (some a) f = f a

unfoldable pub gemini_text : Value → Option Text
unfolding has_keys get part_text
gemini_text content = and_then (as_obj content) (λ fs.
    if has_keys (codes "parts" ∷ []) fs || has_keys (codes "role" ∷ codes "parts" ∷ []) fs
    then and_then (get (codes "parts") fs) (λ parts. and_then (as_part parts) part_text)
    else none)

unfoldable pub gemini_role : Option Value → Option Role
gemini_role (some (str s)) =
    if s == codes "user" then some user else if s == codes "model" then some assistant else none
gemini_role _ = none

abbrev pub role_or_user : Option Role → Role
role_or_user (some r) = r
role_or_user none = user

abbrev pub gemini_plain : Option Role → Option Text → Option Message
gemini_plain (some r) (some text) = some (plain r text)
gemini_plain _ _ = none

unfoldable pub gemini_message : Bool → Fields → Option Message
unfolding has_keys gemini_role gemini_text get
gemini_message structured item =
    let role = gemini_role (get (codes "role") item) in
    let carry = if structured then some (carried (role_or_user role) item) else none in
    if has_keys (codes "role" ∷ codes "parts" ∷ []) item
    then elim (gemini_plain role (gemini_text (obj item))) [ some m ↦ some m | none ↦ carry ]
    else carry

unfoldable pub gemini_item : Bool → Value → Option Message
unfolding gemini_message
gemini_item structured item = and_then (as_obj item) (gemini_message structured)

-- `systemInstruction`: none where it is there and is no single text part.
unfoldable pub gemini_system : Option Value → Option (Option Text)
unfolding gemini_text
gemini_system none = some none
gemini_system (some null) = some none
gemini_system (some v) = elim (gemini_text v) [ none ↦ none | some t ↦ some (some t) ]

abbrev pub model_value : Option Text → Value
model_value none = null
model_value (some m) = str m

unfoldable pub parse_gemini : Fields → Bool → Option Text → Option CanonicalRequest
unfolding parse_messages gemini_item gemini_system tools_json_of
parse_gemini body structured model =
    and_then (gemini_system (get (codes "systemInstruction") body)) (λ prompt.
      and_then (parse_messages (gemini_item structured) (get (codes "contents") body)) (λ ms.
        some (record {
          dialect = gemini;
          model = model_value model;
          messages = ms;
          system = prompt;
          stream = false;
          tools_json = tools_json_of body;
          cache_breakpoint = none;
        })))

unfoldable pub parse : Dialect → Fields → Bool → Option Text → Option CanonicalRequest
unfolding parse_anthropic parse_openai parse_gemini
parse anthropic body structured model = parse_anthropic body structured
parse openai body structured model = parse_openai body structured
parse gemini body structured model = parse_gemini body structured model
parse unknown body structured model = none
