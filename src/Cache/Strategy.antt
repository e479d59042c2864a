-- ===== src/Cache/Strategy.antt =====
-- cache/strategy.py: which leading messages a provider caches, and where a breakpoint goes.
use parcus.Prelude.{
  ℕ, ◌-◌, ◌≡◌, refl, Bool, true, false, ◌||◌, Option, none, some, List, [], ◌∷◌, length, ltb, arith,
  if◌then◌else◌,
}
use parcus.Text.{Text}
use parcus.Model.{
  Dialect, anthropic, gemini, no_caching, explicit_breakpoint, explicit_context_api,
  CacheCapability, CanonicalRequest, Message,
}

pub data Strategy : Type 0 where
  null_strategy anthropic_strategy gemini_strategy : Strategy

unfoldable pub capability : Strategy → CacheCapability
capability null_strategy = record { model = no_caching; min_prefix_tokens = 0; max_breakpoints = 0 }
capability anthropic_strategy = record {
  model = explicit_breakpoint;
  min_prefix_tokens = 4096;
  max_breakpoints = 4;
}
capability gemini_strategy = record {
  model = explicit_context_api;
  min_prefix_tokens = 4096;
  max_breakpoints = 0;
}

-- The truth value of an optional string.
abbrev pub is_truthy : Option Text → Bool
is_truthy (some (c ∷ t)) = true
is_truthy _ = false

-- The policy that Anthropic and Gemini share: all but the final turn.
unfoldable pub boundary_of : List Message → Option Text → Option Text → Option ℕ
boundary_of [] system tools = if is_truthy system || is_truthy tools then some 0 else none
boundary_of (m ∷ ms) system tools = some (length (m ∷ ms) - 1)

unfoldable pub cacheable_boundary : Strategy → CanonicalRequest → Option ℕ
unfolding boundary_of
cacheable_boundary null_strategy r = none
cacheable_boundary _ r = boundary_of r.messages r.system r.tools_json

abbrev mark : Option ℕ → CanonicalRequest → CanonicalRequest
mark none r = r
mark (some boundary) r =
    if ltb boundary 1 then r else record r { cache_breakpoint = some (boundary - 1) }

unfoldable pub annotate : Strategy → CanonicalRequest → CanonicalRequest
unfolding cacheable_boundary
annotate anthropic_strategy r = mark (cacheable_boundary anthropic_strategy r) r
annotate _ r = r

unfoldable pub cache_strategy : Dialect → Strategy
cache_strategy anthropic = anthropic_strategy
cache_strategy gemini = gemini_strategy
cache_strategy _ = null_strategy

mark-boundary_of :
    (r : CanonicalRequest) (ms : List Message) (system tools : Option Text)
    → mark (boundary_of ms system tools) r
      ≡ (if ltb (length ms) 2 then r else record r { cache_breakpoint = some (length ms - 2) })
unfolding boundary_of
mark-boundary_of r [] system tools = ground arith
mark-boundary_of r (m ∷ []) system tools = refl
mark-boundary_of r (m ∷ n ∷ ms) system tools = ground arith

-- A breakpoint is set only by the strategy of Anthropic, and only for a request of two turns or
-- more; then it names a turn before the last one. Nothing but the marker changes.
pub annotate-cases :
    (s : Strategy) (r : CanonicalRequest)
    → annotate s r ≡ (elim s [
      | anthropic_strategy ↦
          if ltb (length r.messages) 2
          then r
          else record r { cache_breakpoint = some (length r.messages - 2) }
      | _ ↦ r
    ])
unfolding annotate
annotate-cases null_strategy r = refl
annotate-cases gemini_strategy r = refl
annotate-cases anthropic_strategy r = mark-boundary_of r r.messages r.system r.tools_json
