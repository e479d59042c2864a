-- ===== src/Model.antt =====
-- model.py: the provider-agnostic request, its spans and messages, and the statistics of a pass.
use Prim.Native.String.{String}
use parcus.Prelude.{
  ℕ, ◌-◌, Bool, true, false, Option, none, some, List, [], ◌++◌, map, leb, Eq, ◌≡◌, ◌↔◌, arith,
}
use parcus.Text.{Text, concat}
use parcus.Json.{Value, Fields, obj, dumps, canonical_style}

pub data Role : Type 0 where
  system user assistant tool : Role

pub data Dialect : Type 0 where
  anthropic openai gemini unknown : Dialect

pub data CacheModel : Type 0 where
  no_caching automatic_prefix explicit_breakpoint explicit_context_api : CacheModel

pub record CacheCapability : Type 0 where
  pub model : CacheModel
  pub min_prefix_tokens : ℕ
  pub max_breakpoints : ℕ

-- Times are whole units of the clock.
pub record ContextCacheHandle : Type 0 where
  pub name : Text
  pub model : Text
  pub expires_at : ℕ

unfoldable pub is_expired : ContextCacheHandle → ℕ → Bool
is_expired handle now = leb handle.expires_at now

pub record Span : Type 0 where
  pub text : Text
  pub mutable : Bool

unfoldable pub with_text : Span → Text → Span
with_text span text = record span { text = text }

pub record Message : Type 0 where
  pub role : Role
  pub spans : List Span
  pub raw : Option Fields

-- `Message.text`.
unfoldable pub message_text : Message → Text
message_text m = elim m.raw [
  | none ↦ concat (map (λ (s : Span). s.text) m.spans)
  | some raw ↦ dumps canonical_style (obj raw)
]

-- The model is whatever the body names, `null` for none: the parsers do not check its type.
pub record CanonicalRequest : Type 0 where
  pub dialect : Dialect
  pub model : Value
  pub messages : List Message
  pub system : Option Text
  pub stream : Bool
  pub tools_json : Option Text
  pub cache_breakpoint : Option ℕ

-- `s or ""`.
abbrev pub text_or_empty : Option Text → Text
text_or_empty none = []
text_or_empty (some t) = t

-- `CanonicalRequest.text`.
unfoldable pub request_text : CanonicalRequest → Text
unfolding message_text
request_text r = text_or_empty r.system ++ concat (map message_text r.messages)

pub record CompressionStats : Type 0 where
  pub step : String
  pub tokens_before : ℕ
  pub tokens_after : ℕ
  pub spans_touched : ℕ
  pub ok : Option Bool

-- `max(0, before - after)`.
unfoldable pub tokens_saved : CompressionStats → ℕ
tokens_saved s = s.tokens_before - s.tokens_after

pub record CachedResponse : Type 0 where
  pub status_code : ℕ
  pub body : List ℕ
  pub content_type : Option Text

abbrev role_beq : Role → Role → Bool
role_beq system system = true
role_beq user user = true
role_beq assistant assistant = true
role_beq tool tool = true
role_beq _ _ = false

pub role_beq_iff : (a b : Role) → (role_beq a b ≡ true) ↔ (a ≡ b)
role_beq_iff a b = (λ h. ground arith, λ h. ground arith)

instance abbrev pub role_eq : Eq Role
role_eq = record { beq = role_beq; beq_iff = role_beq_iff }

abbrev dialect_beq : Dialect → Dialect → Bool
dialect_beq anthropic anthropic = true
dialect_beq openai openai = true
dialect_beq gemini gemini = true
dialect_beq unknown unknown = true
dialect_beq _ _ = false

pub dialect_beq_iff : (a b : Dialect) → (dialect_beq a b ≡ true) ↔ (a ≡ b)
dialect_beq_iff a b = (λ h. ground arith, λ h. ground arith)

instance abbrev pub dialect_eq : Eq Dialect
dialect_eq = record { beq = dialect_beq; beq_iff = dialect_beq_iff }
