-- ===== src/Proxy/Dialects/Fields.antt =====
-- proxy/dialects.py: the fields of a body that reach the canonical request.
use parcus.Prelude.{
  ◌≡◌, refl, ap, sym, ◌∙◌, Bool, true, false, Option, none, some, List, [], ◌∷◌, contains,
  Bool-cases, inl, inr, nat_eq, list_eq, list_beq_iff, ◌==◌,
}
use parcus.Text.{Text, codes}
use parcus.Json.{Value, Fields, null, dumps, canonical_style, get, put}
use parcus.Json.Laws.{get-put}
use parcus.Model.{Dialect, anthropic, openai, gemini, unknown, Message, CanonicalRequest}
use parcus.Proxy.Dialects.Parse.{
  parse_anthropic, parse_openai, tools_json_of, parse_messages, parse_item, anthropic_roles,
  openai_roles, system_of, value_or_null, truth,
}
use parcus.Proxy.Dialects.Gemini.{
  parse_gemini, parse, and_then, gemini_system, gemini_item, model_value,
}

-- The fields that a parser reads.
abbrev pub read_keys : List Text
read_keys =
    codes "model"
    ∷ codes "messages"
    ∷ codes "system"
    ∷ codes "stream"
    ∷ codes "tools"
    ∷ codes "contents"
    ∷ codes "systemInstruction"
    ∷ []

get-put_unread :
    (j k : Text) (v : Value) (fs : Fields)
    → contains k read_keys ≡ false
    → contains j read_keys ≡ true
    → get j (put k v fs) ≡ get j fs
get-put_unread j k v fs unread read = elim (Bool-cases (k == j)) [
  | inl e ↦
      absurd (cc (sym unread ∙ ap (λ x. contains x read_keys) ((list_beq_iff k j).0 e) ∙ read))
  | inr e ↦ get-put j k v fs ∙ rw e refl
]

-- What `tools_json_of` makes of the field.
abbrev tools_of : Option Value → Option Text
tools_of tools = elim tools [
  | none ↦ none
  | some null ↦ none
  | some v ↦ some (dumps canonical_style v)
]

-- The three parsers as functions of the fields that they read.
abbrev anthropic_of :
    Bool
    → Option Value
    → Option Value
    → Option Value
    → Option Value
    → Option Value
    → Option CanonicalRequest
anthropic_of structured prompt items model stream tools = elim (system_of prompt) [
  | none ↦ none
  | some text ↦ elim (parse_messages (parse_item anthropic_roles structured) items) [
    | none ↦ none
    | some messages ↦ some (record {
      dialect = anthropic;
      model = value_or_null model;
      messages = messages;
      system = text;
      stream = truth stream;
      tools_json = tools_of tools;
      cache_breakpoint = none;
    })
  ]
]

parse_anthropic-of :
    (body : Fields) (structured : Bool)
    → parse_anthropic body structured
      ≡ anthropic_of structured
          (get (codes "system") body)
          (get (codes "messages") body)
          (get (codes "model") body)
          (get (codes "stream") body)
          (get (codes "tools") body)
unfolding parse_anthropic tools_json_of
parse_anthropic-of body structured = refl

abbrev openai_of :
    Bool → Option Value → Option Value → Option Value → Option Value → Option CanonicalRequest
openai_of structured items model stream tools =
    elim (parse_messages (parse_item openai_roles structured) items) [
      | none ↦ none
      | some messages ↦ some (record {
        dialect = openai;
        model = value_or_null model;
        messages = messages;
        system = none;
        stream = truth stream;
        tools_json = tools_of tools;
        cache_breakpoint = none;
      })
    ]

parse_openai-of :
    (body : Fields) (structured : Bool)
    → parse_openai body structured
      ≡ openai_of structured
          (get (codes "messages") body)
          (get (codes "model") body)
          (get (codes "stream") body)
          (get (codes "tools") body)
unfolding parse_openai tools_json_of
parse_openai-of body structured = refl

abbrev pub gemini_request :
    Option Text → Option Text → List Message → Option Value → CanonicalRequest
gemini_request name prompt ms tools = record {
  dialect = gemini;
  model = model_value name;
  messages = ms;
  system = prompt;
  stream = false;
  tools_json = tools_of tools;
  cache_breakpoint = none;
}

abbrev pub gemini_of :
    Bool → Option Text → Option Value → Option Value → Option Value → Option CanonicalRequest
gemini_of structured name prompt items tools = and_then (gemini_system prompt) (λ text.
    and_then (parse_messages (gemini_item structured) items)
      (λ ms. some (gemini_request name text ms tools)))

pub parse_gemini-of :
    (body : Fields) (structured : Bool) (name : Option Text)
    → parse_gemini body structured name
      ≡ gemini_of structured name
          (get (codes "systemInstruction") body)
          (get (codes "contents") body)
          (get (codes "tools") body)
unfolding parse_gemini tools_json_of
parse_gemini-of body structured name = refl

-- For every dialect: to set a field that no parser reads (the temperature, the number of tokens,
-- the form of the answer) leaves the canonical request as it was. So two requests that differ in
-- such a field alone have the same cache key.
pub parse-put :
    (d : Dialect) (body : Fields) (key : Text) (v : Value) (structured : Bool) (name : Option Text)
    → contains key read_keys ≡ false
    → parse d (put key v body) structured name ≡ parse d body structured name
unfolding parse
parse-put anthropic body key v structured name h =
    parse_anthropic-of (put key v body) structured
    ∙ rw
        (
          get-put_unread (codes "system") key v body h refl,
          get-put_unread (codes "messages") key v body h refl,
          get-put_unread (codes "model") key v body h refl,
          get-put_unread (codes "stream") key v body h refl,
          get-put_unread (codes "tools") key v body h refl,
        )
        (sym (parse_anthropic-of body structured))
parse-put openai body key v structured name h =
    parse_openai-of (put key v body) structured
    ∙ rw
        (
          get-put_unread (codes "messages") key v body h refl,
          get-put_unread (codes "model") key v body h refl,
          get-put_unread (codes "stream") key v body h refl,
          get-put_unread (codes "tools") key v body h refl,
        )
        (sym (parse_openai-of body structured))
parse-put gemini body key v structured name h =
    parse_gemini-of (put key v body) structured name
    ∙ rw
        (
          get-put_unread (codes "systemInstruction") key v body h refl,
          get-put_unread (codes "contents") key v body h refl,
          get-put_unread (codes "tools") key v body h refl,
        )
        (sym (parse_gemini-of body structured name))
parse-put unknown body key v structured name h = refl
