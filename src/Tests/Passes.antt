-- ===== src/Tests/Passes.antt =====
-- spans.py, invariants.py, compress/*.py on concrete texts and requests.
use parcus.Prelude.{
  ◌-◌, drop, ◌<◌, ◌≡◌, ◌≢◌, ◌⊎◌, inl, inr, ◌↔◌, refl, true, false, none, some, List, [], ◌∷◌, map,
  length, All, nat_eq, list_eq,
}
use parcus.Json.{field, end, arr, obj, str, cons, nil, Fields}
use parcus.Text.{Text, codes, words, concat}
use parcus.Model.{user, anthropic, Message, CanonicalRequest, CompressionStats}
use parcus.Spans.{next_fence, classify_spans}
use parcus.Spans.Cover.{classify_spans_correct, IsPiece, span_text}
use parcus.Invariants.{
  is_allowed, removed_only_allowed, is_lossless_equivalent, is_filler_equivalent,
}
use parcus.Invariants.Deletes.{Deletes, removed_only_allowed_iff}
use parcus.Compress.Sampling.{VerifySampler, new_sampler}
use parcus.Compress.Rewrite.{Counter}
use parcus.Compress.Rewrite.Issues.{IsParsed}
use parcus.Compress.Lossless.{normalise_whitespace}
use parcus.Compress.Lossless.Check.{PlainSystem, compress_lossless}
use parcus.Compress.Filler.{filter_prose, default_fillers}
use parcus.Compress.Filler.Check.{compress_filler}
use parcus.Compress.Dedup.{DedupCompressor, new_dedup}
use parcus.Compress.Dedup.Kept.{plain_texts, size, new_dedup-size-compress}
use parcus.Compress.Elision.{ToolResultElider}
use parcus.Compress.Elision.Kept.{IsElidedMessage, Each, compress-Each}
use parcus.Compress.Lossless as Lossless
use parcus.Compress.Filler as Filler
use parcus.Compress.Dedup as Dedup
use parcus.Compress.Elision as Elision

abbrev fenced : Text
fenced = codes "Please look:  \n```\nx  = 1\n```\n\n\nthanks"

abbrev plain_text : Text
plain_text = codes "just  fix\n\n\nthe test "

abbrev turn : Text → Message
turn t = record { role = user; spans = record { text = t; mutable = true } ∷ []; raw = none }

abbrev tool_block : Fields
tool_block = field (codes "type") (str (codes "tool_result")) (
    field (codes "tool_use_id") (str (codes "t1"))
      (field (codes "content") (str (codes "long output")) end))

abbrev tool_turn : Message
tool_turn = record {
  role = user;
  spans = [];
  raw = some (
      field (codes "role") (str (codes "user"))
        (field (codes "content") (arr (cons (obj tool_block) nil)) end));
}

abbrev sample : CanonicalRequest
sample = record {
  dialect = anthropic;
  model = str (codes "m");
  messages = turn plain_text ∷ tool_turn ∷ turn (codes "same text") ∷ turn (codes "same text") ∷ [];
  system = some (codes "be  brief");
  stream = false;
  tools_json = none;
  cache_breakpoint = none;
}

sample-IsParsed : All IsParsed sample.messages
sample-IsParsed = (inl refl, (inr refl, (inl refl, (inl refl, tt))))

sample-PlainSystem : PlainSystem sample.system
unfolding next_fence
sample-PlainSystem = refl

abbrev count_chars : Counter
count_chars text model = some (length text)

abbrev never : Counter
never text model = none

abbrev lower : Text → Text
lower t = t

classify_spans_correct_example :
    (classify_spans fenced ≢ [])
    × (concat (map span_text (classify_spans fenced)) ≡ fenced)
    × All IsPiece (classify_spans fenced)
classify_spans_correct_example = classify_spans_correct fenced

compress_lossless_example :
    (is_lossless_equivalent sample (Lossless.compress count_chars (new_sampler 1 2) sample).1
      ≡ true)
    × All (λ s. s.ok ≢ some false) (Lossless.compress count_chars (new_sampler 1 2) sample).2
compress_lossless_example =
    compress_lossless count_chars (new_sampler 1 2) sample sample-IsParsed sample-PlainSystem

compress_filler_example :
    (is_filler_equivalent lower default_fillers sample
        (Filler.compress lower default_fillers count_chars (new_sampler 1 2) sample).1
      ≡ true)
    × All
        (λ s. s.ok ≢ some false)
        (Filler.compress lower default_fillers count_chars (new_sampler 1 2) sample).2
compress_filler_example =
    compress_filler lower default_fillers count_chars (new_sampler 1 2) sample sample-IsParsed
      sample-PlainSystem

removed_only_allowed_iff_example :
    (removed_only_allowed lower (codes "please just go") (codes "go") default_fillers ≡ true)
    ↔ Deletes
        (is_allowed lower default_fillers)
        (words (codes "please just go"))
        (words (codes "go"))
removed_only_allowed_iff_example =
    removed_only_allowed_iff lower (codes "please just go") (codes "go") default_fillers

new_dedup-size-compress_example :
    (Dedup.compress (new_dedup 6 (codes "*")) count_chars sample ≡ (sample, []))
    ⊎ (size (plain_texts (Dedup.compress (new_dedup 6 (codes "*")) count_chars sample).0.messages)
        < size (plain_texts sample.messages))
new_dedup-size-compress_example = new_dedup-size-compress 6 (codes "*") count_chars sample

abbrev elider : ToolResultElider
elider = record { keep_recent = 1; stub = codes "-" }

-- A tool result behind the recent turns.
abbrev called : CanonicalRequest
called = record sample {
  messages =
      record {
        role = user;
        spans = [];
        raw = some (
            field (codes "content")
              (arr (
                cons
                  (obj (
                    field (codes "type") (str (codes "tool_result"))
                      (field (codes "content") (str (codes "a long payload")) end)))
                  nil))
              end);
      }
      ∷ turn (codes "and now")
      ∷ [];
}

compress-Each_example :
    (messages : List Message) × ((Elision.compress elider count_chars called).0
      ≡ record called { messages = messages })
    × Each (IsElidedMessage elider.stub) called.messages messages
    × (drop (length called.messages - elider.keep_recent) messages
        ≡ drop (length called.messages - elider.keep_recent) called.messages)
compress-Each_example = compress-Each elider count_chars called

-- A store of one sampler, and the lossless pass on it.
abbrev lossless_pass :
    VerifySampler → CanonicalRequest → VerifySampler × CanonicalRequest × List CompressionStats
lossless_pass s r = Lossless.compress count_chars s r
