-- ===== src/Tests/Reduced.antt =====
-- tokenize.py and compress/learned.py on concrete texts and requests.
use parcus.Prelude.{
  drop, ◌≡◌, ◌⊎◌, refl, inl, true, false, Option, none, some, [], ◌∷◌, ◌==◌, nat_eq, list_eq,
  if◌then◌else◌,
}
use parcus.Text.{Text, codes}
use parcus.Json.{str}
use parcus.Model.{user, anthropic, CanonicalRequest, CompressionStats}
use parcus.Tokens.{heuristic_count}
use parcus.Compress.Rewrite.{rewrite_request}
use parcus.Compress.Learned.{compress}
use parcus.Compress.Learned.Kept.{
  Raised, CounterRaised, prose, whole, IsSameShape, compress-IsSameShape,
}

-- Drops three characters; raises on the text "x".
abbrev reduce : Text → Option Text
reduce t = if t == codes "x" then none else some (drop 3 t)

abbrev said : CanonicalRequest
said = record {
  dialect = anthropic;
  model = str (codes "m");
  messages =
      record {
        role = user;
        spans =
            record { text = codes "so do"; mutable = true }
            ∷ record { text = codes "so on"; mutable = false }
            ∷ [];
        raw = none;
      }
      ∷ [];
  system = none;
  stream = false;
  tools_json = none;
  cache_breakpoint = none;
}

compress-IsSameShape_example :
    IsSameShape said (compress reduce (λ t model. some (heuristic_count t)) said).0
    × (((compress reduce (λ t model. some (heuristic_count t)) said ≡ (said, []))
          × (Raised reduce ⊎ CounterRaised (λ t model. some (heuristic_count t))))
        ⊎ ((s : CompressionStats) × (compress reduce (λ t model. some (heuristic_count t)) said
              ≡ ((rewrite_request (prose reduce) (whole reduce) said).0, s ∷ []))
            × (s.ok ≡ none)
            × (s.spans_touched ≡ (rewrite_request (prose reduce) (whole reduce) said).1)))
compress-IsSameShape_example =
    compress-IsSameShape reduce (λ t model. some (heuristic_count t)) said (inl refl, tt)
