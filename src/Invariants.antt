-- ===== src/Invariants.antt =====
-- invariants.py: the checks by which a pass verifies its own output. A message of the source is a
-- constructor here, with the message's index.
pub mod Deletes
use parcus.Prelude.{
  ℕ, zero, suc, ◌+◌, Bool, true, false, not, ◌&&◌, Option, none, some, List, [], ◌∷◌, ◌++◌, length,
  is_empty, contains, ◌==◌, nat_eq, list_eq, if◌then◌else◌,
}
use parcus.Text.{Text, words, strip_by, is_punctuation}
use parcus.Model.{Span, Message, CanonicalRequest, role_eq}

unfoldable pub word_sequence_equal : Text → Text → Bool
word_sequence_equal a b = words a == words b

-- `token.strip(punctuation).lower() in allowed`; `lower` is Python's `str.lower`.
unfoldable pub is_allowed : (Text → Text) → List Text → Text → Bool
is_allowed lower allowed token = contains (lower (strip_by is_punctuation token)) allowed

-- The loop of `removed_only_allowed`: the original tokens against the output tokens not yet
-- matched.
unfoldable pub match_tokens : (Text → Bool) → List Text → List Text → Bool
match_tokens allowed [] out = is_empty out
match_tokens allowed (t ∷ ts) [] = if allowed t then match_tokens allowed ts [] else false
match_tokens allowed (t ∷ ts) (o ∷ out) = elim (t == o) [
  | true ↦ match_tokens allowed ts out
  | false ↦ elim (allowed t) [ true ↦ match_tokens allowed ts (o ∷ out) | false ↦ false ]
]

unfoldable pub removed_only_allowed : (Text → Text) → Text → Text → List Text → Bool
removed_only_allowed lower original compressed allowed =
    match_tokens (is_allowed lower allowed) (words original) (words compressed)

pub data Violation : Type 0 where
  system_presence system_content message_count : Violation
  role_changed span_structure immutable_altered mutable_content : ℕ → Violation

-- The two lists of violations differ only in how mutable text is compared.
module _ (same : Text → Text → Bool) where
  abbrev pub span_issue : ℕ → Span → Span → List Violation
  span_issue i o c =
      if o.mutable
      then (if same o.text c.text then [] else mutable_content i ∷ [])
      else (if o.text == c.text then [] else immutable_altered i ∷ [])

  unfoldable pub span_issues : ℕ → List Span → List Span → List Violation
  span_issues i (o ∷ os) (c ∷ cs) = span_issue i o c ++ span_issues i os cs
  span_issues i _ _ = []

  unfoldable pub message_issues : ℕ → Message → Message → List Violation
  unfolding span_issues
  message_issues i o c =
      (if o.role == c.role then [] else role_changed i ∷ [])
      ++ (if length o.spans == length c.spans
          then span_issues i o.spans c.spans
          else span_structure i ∷ [])

  unfoldable pub messages_issues : ℕ → List Message → List Message → List Violation
  unfolding message_issues
  messages_issues i (o ∷ os) (c ∷ cs) = message_issues i o c ++ messages_issues (i + 1) os cs
  messages_issues i _ _ = []

  unfoldable pub system_issues : Option Text → Option Text → List Violation
  system_issues none none = []
  system_issues (some o) (some c) = if same o c then [] else system_content ∷ []
  system_issues _ _ = system_presence ∷ []

  unfoldable pub violations : CanonicalRequest → CanonicalRequest → List Violation
  unfolding system_issues messages_issues
  violations o c =
      system_issues o.system c.system
      ++ (if length o.messages == length c.messages
          then messages_issues 0 o.messages c.messages
          else message_count ∷ [])

unfoldable pub lossless_violations : CanonicalRequest → CanonicalRequest → List Violation
unfolding violations
lossless_violations = violations word_sequence_equal

unfoldable pub is_lossless_equivalent : CanonicalRequest → CanonicalRequest → Bool
unfolding lossless_violations
is_lossless_equivalent o c = is_empty (lossless_violations o c)

unfoldable pub filler_violations :
    (Text → Text) → List Text → CanonicalRequest → CanonicalRequest → List Violation
unfolding violations
filler_violations lower allowed = violations (λ o c. removed_only_allowed lower o c allowed)

unfoldable pub is_filler_equivalent :
    (Text → Text) → List Text → CanonicalRequest → CanonicalRequest → Bool
unfolding filler_violations
is_filler_equivalent lower allowed o c = is_empty (filler_violations lower allowed o c)
