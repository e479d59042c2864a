-- ===== src/Cache/Policy.antt =====
-- cache/policy.py and cache/key.py: which requests may be cached, and under which key. The patterns
-- are given as their `search` tests; the digest is a parameter.
use parcus.Prelude.{
  ℕ, ◌≡◌, refl, Bool, true, false, not, ◌&&◌, Option, none, some, List, [], ◌∷◌, ◌++◌, is_empty,
  if◌then◌else◌,
}
use parcus.Text.{Text, codes}
use parcus.Json.{Value, Items, null, str, arr, obj, nil, cons, end, field, dumps, canonical_style}
use parcus.Model.{
  Role, system, user, assistant, tool, Dialect, anthropic, openai, gemini, unknown, Message,
  message_text, CanonicalRequest, request_text,
}

pub record CachePolicy : Type 0 where
  pub enabled : Bool
  pub ttl_seconds : ℕ
  pub nocache_patterns : List (Text → Bool)
  pub bypass_on_secret : Bool

unfoldable pub matches_any : List (Text → Bool) → Text → Bool
matches_any [] text = false
matches_any (p ∷ ps) text = if p text then true else matches_any ps text

-- `has_secret` is the optional detector.
unfoldable pub should_cache : CachePolicy → CanonicalRequest → Option (Text → Bool) → Bool
unfolding matches_any
should_cache policy r has_secret =
    if not policy.enabled
    then false
    else if matches_any policy.nocache_patterns (request_text r)
    then false
    else elim has_secret [
      | none ↦ true
      | some detect ↦ not (policy.bypass_on_secret && detect (request_text r))
    ]

unfoldable pub role_value : Role → Text
role_value system = codes "system"
role_value user = codes "user"
role_value assistant = codes "assistant"
role_value tool = codes "tool"

unfoldable pub dialect_value : Dialect → Text
dialect_value anthropic = codes "anthropic"
dialect_value openai = codes "openai"
dialect_value gemini = codes "gemini"
dialect_value unknown = codes "unknown"

abbrev optional_str : Option Text → Value
optional_str none = null
optional_str (some t) = str t

unfoldable pub key_messages : List Message → Items
unfolding role_value
key_messages [] = nil
key_messages (m ∷ ms) =
    cons (arr (cons (str (role_value m.role)) (cons (str (message_text m)) nil))) (key_messages ms)

-- The dict that `compute_key` serialises.
unfoldable pub payload : CanonicalRequest → Value
unfolding key_messages dialect_value
payload r = obj (
    field (codes "v") (str (codes "v1")) (
      field (codes "dialect") (str (dialect_value r.dialect)) (
        field (codes "model") r.model (
          field (codes "system") (optional_str r.system) (
            field (codes "messages") (arr (key_messages r.messages))
              (field (codes "tools") (optional_str r.tools_json) end))))))

unfoldable pub compute_key : (Text → Text) → CanonicalRequest → Text → Text
unfolding payload
compute_key sha256_hex r salt =
    let blob = dumps canonical_style (payload r) in
    codes "v1:" ++ sha256_hex (if is_empty salt then blob else salt ++ (0 ∷ blob))

-- The key ignores what does not change the answer: the stream flag and the cache breakpoint.
pub compute_key_volatile :
    (sha256_hex : Text → Text) (r : CanonicalRequest) (stream : Bool) (breakpoint : Option ℕ)
    (salt : Text)
    → compute_key sha256_hex (record r { stream = stream; cache_breakpoint = breakpoint }) salt
      ≡ compute_key sha256_hex r salt
unfolding compute_key
compute_key_volatile sha256_hex r stream breakpoint salt = refl
