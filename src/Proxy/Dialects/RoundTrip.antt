-- ===== src/Proxy/Dialects/RoundTrip.antt =====
-- proxy/dialects.py: a body that was parsed, written back and parsed again.
use parcus.Prelude.{
  ◌≡◌, ◌∙◌, refl, ap, sym, Bool, false, Option-cases, Option, none, some, List, nat_eq, list_eq,
  ◌==◌, inl, inr, arith, list_beq_iff,
}
use mathlib.Core.Path.{subst}
use parcus.Text.{Text, codes}
use parcus.Json.{Value, Fields, null, bool, num, str, arr, obj, get, put}
use parcus.Json.Laws.{get-put}
use parcus.Model.{Role, Dialect, anthropic, openai, gemini, unknown, Message, CanonicalRequest}
use parcus.Proxy.Dialects.Parse.{
  tools_json_of, truth, value_or_null, anthropic_roles, openai_roles, parse_item, parse_messages,
  system_of, parse_anthropic, parse_openai,
}
use parcus.Proxy.Dialects.Gemini.{parse}
use parcus.Proxy.Dialects.Serialize.{
  write_messages, put_system, system_instruction, serialize_gemini, write_body, serialize,
}
use parcus.Proxy.Dialects.GeminiTrip.{reparse_gemini}
use parcus.Proxy.Dialects.Written.{parse_items-written}

abbrev anthropic_request : Fields → Option Text → List Message → CanonicalRequest
anthropic_request body prompt ms = record {
  dialect = anthropic;
  model = value_or_null (get (codes "model") body);
  messages = ms;
  system = prompt;
  stream = truth (get (codes "stream") body);
  tools_json = tools_json_of body;
  cache_breakpoint = none;
}

read_anthropic :
    (body : Fields) (structured : Bool) (prompt : Option Text) (ms : List Message)
    → system_of (get (codes "system") body) ≡ some prompt
    → parse_messages (parse_item anthropic_roles structured) (get (codes "messages") body) ≡ some ms
    → parse_anthropic body structured ≡ some (anthropic_request body prompt ms)
unfolding parse_anthropic
read_anthropic body structured prompt ms hs hm =
    rw (hs, parse_anthropic) (rw (hm, parse_anthropic) refl)

parse_anthropic_inv :
    (body : Fields) (structured : Bool) (r : CanonicalRequest)
    → parse_anthropic body structured ≡ some r
    → (prompt : Option Text) × (ms : List Message) × (system_of (get (codes "system") body)
        ≡ some prompt)
      × (parse_messages (parse_item anthropic_roles structured) (get (codes "messages") body)
          ≡ some ms)
      × (r ≡ anthropic_request body prompt ms)
unfolding parse_anthropic
parse_anthropic_inv body structured r h =
    elim (Option-cases (system_of (get (codes "system") body))) [
      | inl e ↦ ground arith
      | inr (prompt, e) ↦
          elim (Option-cases (
            parse_messages (parse_item anthropic_roles structured) (get (codes "messages") body))) [
              | inl q ↦ ground arith
              | inr (ms, q) ↦ (prompt, ms, e, q, ground arith)
            ]
    ]

-- The messages of a body that was read, written and read again.
reread_messages :
    (roles : List Role) (structured : Bool) (v : Option Value) (ms : List Message)
    → parse_messages (parse_item roles structured) v ≡ some ms
    → parse_messages (parse_item roles structured) (some (arr (write_messages none 0 ms))) ≡ some ms
unfolding parse_messages
reread_messages roles structured none ms h = ground arith
reread_messages roles structured (some (arr items)) ms h =
    parse_items-written roles structured items ms 0 h
reread_messages roles structured (some null) ms h = ground arith
reread_messages roles structured (some (bool b)) ms h = ground arith
reread_messages roles structured (some (num b t)) ms h = ground arith
reread_messages roles structured (some (str t)) ms h = ground arith
reread_messages roles structured (some (obj fs)) ms h = ground arith

abbrev written : Option Text → List Message → Fields → Fields
written prompt ms body =
    put_system (codes "system") str prompt
      (put (codes "messages") (arr (write_messages none 0 ms)) body)

get-written :
    (j : Text) (prompt : Option Text) (ms : List Message) (body : Fields)
    → (codes "messages" == j) ≡ false
    → (codes "system" == j) ≡ false
    → get j (written prompt ms body) ≡ get j body
get-written j none ms body e h = get-put j (codes "messages") _ body ∙ rw e refl
get-written j (some prompt) ms body e h =
    get-put j (codes "system") _ _ ∙ rw h (get-put j (codes "messages") _ body ∙ rw e refl)

get-messages_written :
    (prompt : Option Text) (ms : List Message) (body : Fields)
    → get (codes "messages") (written prompt ms body) ≡ some (arr (write_messages none 0 ms))
get-messages_written none ms body = get-put (codes "messages") (codes "messages") _ body
get-messages_written (some prompt) ms body =
    get-put (codes "messages") (codes "system") _ _
    ∙ get-put (codes "messages") (codes "messages") _ body

system_of-written :
    (prompt : Option Text) (ms : List Message) (body : Fields)
    → system_of (get (codes "system") body) ≡ some prompt
    → system_of (get (codes "system") (written prompt ms body)) ≡ some prompt
system_of-written none ms body h =
    ap system_of (get-put (codes "system") (codes "messages") _ body) ∙ h
system_of-written (some prompt) ms body h =
    ap system_of (get-put (codes "system") (codes "system") _ _)

-- The request that is read depends on the fields `model`, `stream` and `tools` of the body alone.
anthropic_request-written :
    (prompt : Option Text) (ms : List Message) (body : Fields)
    → anthropic_request (written prompt ms body) prompt ms ≡ anthropic_request body prompt ms
unfolding tools_json_of
anthropic_request-written prompt ms body =
    rw (get-written (codes "model") prompt ms body refl refl) (
      rw (get-written (codes "stream") prompt ms body refl refl)
        (rw (get-written (codes "tools") prompt ms body refl refl, tools_json_of) refl))

reparse_anthropic :
    (body : Fields) (structured : Bool) (r : CanonicalRequest)
    → parse_anthropic body structured ≡ some r
    → parse_anthropic (serialize r body) structured ≡ some r
unfolding serialize write_body
reparse_anthropic body structured r h =
    let (prompt, ms, hs, hm, e) = parse_anthropic_inv body structured r h in
    subst (λ q. parse_anthropic (serialize q body) structured ≡ some q) (sym e)
      (read_anthropic (written prompt ms body) structured prompt ms
          (system_of-written prompt ms body hs)
          (ap (parse_messages (parse_item anthropic_roles structured))
              (get-messages_written prompt ms body)
            ∙ reread_messages anthropic_roles structured (get (codes "messages") body) ms hm)
        ∙ ap some (anthropic_request-written prompt ms body))

abbrev openai_request : Fields → List Message → CanonicalRequest
openai_request body ms = record {
  dialect = openai;
  model = value_or_null (get (codes "model") body);
  messages = ms;
  system = none;
  stream = truth (get (codes "stream") body);
  tools_json = tools_json_of body;
  cache_breakpoint = none;
}

openai_request-written :
    (ms : List Message) (body : Fields)
    → openai_request (written none ms body) ms ≡ openai_request body ms
unfolding tools_json_of
openai_request-written ms body = rw (get-written (codes "model") none ms body refl refl) (
    rw (get-written (codes "stream") none ms body refl refl)
      (rw (get-written (codes "tools") none ms body refl refl, tools_json_of) refl))

parse_openai_inv :
    (body : Fields) (structured : Bool) (r : CanonicalRequest)
    → parse_openai body structured ≡ some r
    → (ms : List Message) × (parse_messages
          (parse_item openai_roles structured)
          (get (codes "messages") body)
        ≡ some ms)
      × (r ≡ openai_request body ms)
unfolding parse_openai
parse_openai_inv body structured r h =
    elim (Option-cases
      (parse_messages (parse_item openai_roles structured) (get (codes "messages") body))) [
        | inl q ↦ ground arith
        | inr (ms, q) ↦ (ms, q, ground arith)
      ]

read_openai :
    (body : Fields) (structured : Bool) (ms : List Message)
    → parse_messages (parse_item openai_roles structured) (get (codes "messages") body) ≡ some ms
    → parse_openai body structured ≡ some (openai_request body ms)
unfolding parse_openai
read_openai body structured ms hm = rw (hm, parse_openai) refl

reparse_openai :
    (body : Fields) (structured : Bool) (r : CanonicalRequest)
    → parse_openai body structured ≡ some r
    → parse_openai (serialize r body) structured ≡ some r
unfolding serialize write_body
reparse_openai body structured r h =
    let (ms, hm, e) = parse_openai_inv body structured r h in
    subst (λ q. parse_openai (serialize q body) structured ≡ some q) (sym e)
      (read_openai (written none ms body) structured ms (
          ap (parse_messages (parse_item openai_roles structured))
            (get-messages_written none ms body)
          ∙ reread_messages openai_roles structured (get (codes "messages") body) ms hm)
        ∙ ap some (openai_request-written ms body))

-- For every dialect, with structured messages or without: if a body is parsed into a request, then
-- the body that `serialize` writes for this request is parsed into the same request.
pub reparse :
    (d : Dialect) (body : Fields) (structured : Bool) (name : Option Text) (r : CanonicalRequest)
    → parse d body structured name ≡ some r
    → parse d (serialize r body) structured name ≡ some r
unfolding parse
reparse anthropic body structured name r h = reparse_anthropic body structured r h
reparse openai body structured name r h = reparse_openai body structured r h
reparse gemini body structured name r h = reparse_gemini body structured name r h
reparse unknown body structured name r h = ground arith

get-put_other :
    (j k : Text) (v : Value) (fs : Fields) → (j == k) ≡ false → get j (put k v fs) ≡ get j fs
get-put_other j k v fs h = ground (arith, get-put j k v fs, list_beq_iff j k, list_beq_iff k j)

get-put_system :
    (j k : Text) (as_value : Text → Value) (prompt : Option Text) (fs : Fields)
    → (j == k) ≡ false
    → get j (put_system k as_value prompt fs) ≡ get j fs
get-put_system j k as_value none fs h = refl
get-put_system j k as_value (some prompt) fs h = get-put_other j k (as_value prompt) fs h

get-write_body :
    (d : Dialect) (r : CanonicalRequest) (body : Fields) (key : Text)
    → (key == codes "messages") ≡ false
    → (key == codes "system") ≡ false
    → (key == codes "contents") ≡ false
    → (key == codes "systemInstruction") ≡ false
    → get key (write_body d r body) ≡ get key body
unfolding write_body serialize_gemini
get-write_body anthropic r body key m s c i =
    get-put_system key (codes "system") str r.system _ s
    ∙ get-put_other key (codes "messages") _ body m
get-write_body openai r body key m s c i = get-put_other key (codes "messages") _ body m
get-write_body gemini r body key m s c i =
    get-put_system key (codes "systemInstruction") system_instruction r.system _ i
    ∙ get-put_other key (codes "contents") _ body c
get-write_body unknown r body key m s c i = get-put_other key (codes "messages") _ body m

-- For every request and body: a field of the body whose key is none of `messages`, `system`,
-- `contents` and `systemInstruction` is the same in the body that `serialize` writes.
pub get-serialize :
    (r : CanonicalRequest) (body : Fields) (key : Text)
    → (key == codes "messages") ≡ false
    → (key == codes "system") ≡ false
    → (key == codes "contents") ≡ false
    → (key == codes "systemInstruction") ≡ false
    → get key (serialize r body) ≡ get key body
unfolding serialize
get-serialize r body key m s c i = get-write_body r.dialect r body key m s c i
