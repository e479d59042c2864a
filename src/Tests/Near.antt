-- ===== src/Tests/Near.antt =====
-- cache/context_cache.py, cache/similarity.py and memory/ingest.py on small values.
use parcus.Prelude.{
  map, List, false, All, ℕ, ◌≡◌, ◌≤◌, refl, none, some, [], ◌∷◌, leb, nat_eq, list_eq, pair_eq,
  arith,
}
use parcus.Cache.Contexts.{creating, Registrar, begin_ensure, ensure, live_count, key_of}
use parcus.Cache.Contexts.Overlap.{Ask, asked, end_all, new_registrar, begin_ensure-end_all}
use parcus.Json.{null}
use parcus.Model.{CanonicalRequest, anthropic, user, ContextCacheHandle}
use parcus.Proxy.Dialects.Parse.{plain}
use parcus.Memory.Graph.{new_store, ingest_request}
use parcus.Memory.Graph.Integrity.{Extends, Holds, ingest_request-Extends}
use parcus.Text.{Text, codes}
use parcus.Cache.Contexts.Cap.{ensure-cap}
use parcus.Cache.Similarity.{
  SimilarityEntry, SimilarityCache, Embedding, is_skipped, best_of, lookup_near,
}
use parcus.Cache.Similarity.Best.{IsOrder, IsBest, lookup_near-IsBest}

abbrev plain_text : Text → Text
plain_text t = t

abbrev empty : Registrar
empty = record { ttl_seconds = 10; max_entries = 1; handles = [] }

ensure-cap_example :
    live_count 7
      (ensure plain_text (some (codes "c")) empty 7 (codes "k") none (codes "p")).0.handles
    ≤ (ensure plain_text (some (codes "c")) empty 7 (codes "k") none (codes "p")).0.max_entries
unfolding live_count
ensure-cap_example =
    ensure-cap plain_text (some (codes "c")) empty 5 7 (codes "k") none (codes "p") (omega arith)
      (omega arith)

abbrev handle : ContextCacheHandle
handle = record { name = codes "c"; model = []; expires_at = 17 }

abbrev scores : Embedding ℕ ℕ
scores = record { embed = λ t. some 5; cosine = λ v w. some w; at_least = λ s t. leb t s }

scores-IsOrder : IsOrder scores
scores-IsOrder = record {
  reflexive = λ s. ground arith;
  transitive = λ r s t h g. ground arith;
  total = λ s t h. ground arith;
}

abbrev entry_of : ℕ → Text → SimilarityEntry ℕ
entry_of score key = record { vector = score; key = key; model = none; tenant = codes "t" }

abbrev near : SimilarityCache ℕ ℕ
near = record {
  threshold = 4;
  max_entries = 8;
  entries = entry_of 6 (codes "a") ∷ entry_of 9 (codes "b") ∷ entry_of 3 (codes "c") ∷ [];
}

lookup_near-IsBest_example :
    (vector : ℕ) × (scores.embed (codes "hi") ≡ some vector)
    × ((b : IsBest scores vector none (codes "t") near.threshold near.entries (some (codes "b")))
        × (b.entry.model ≡ none)
        × (b.entry.tenant ≡ codes "t"))
unfolding lookup_near best_of is_skipped
lookup_near-IsBest_example =
    lookup_near-IsBest scores scores-IsOrder near (codes "hi") none (codes "t") (codes "b") refl

abbrev turns : CanonicalRequest
turns = record {
  dialect = anthropic;
  model = null;
  messages =
      plain user (codes "old text") ∷ plain user (codes " ") ∷ plain user (codes "new text") ∷ [];
  system = some (codes "be brief");
  stream = false;
  tools_json = none;
  cache_breakpoint = none;
}

ingest_request-Extends_example :
    Extends new_store (ingest_request plain_text plain_text new_store turns).0
    × All
        (Holds (ingest_request plain_text plain_text new_store turns).0)
        (ingest_request plain_text plain_text new_store turns).1
ingest_request-Extends_example = ingest_request-Extends plain_text plain_text new_store turns

abbrev asks : List Ask
asks =
    record { credential = codes "k"; model = none; prefix = codes "p" }
    ∷ record { credential = codes "k"; model = none; prefix = codes "q" }
    ∷ record { credential = codes "k"; model = none; prefix = codes "r" }
    ∷ []

begin_ensure-end_all_example :
    ((q : Ask)
      → begin_ensure plain_text (new_registrar 10 1) 7 q.credential q.model q.prefix
        ≡ (new_registrar 10 1, creating (asked plain_text 7 q)))
    × (live_count 7
          (end_all (new_registrar 10 1) (codes "c") (map (asked plain_text 7) asks)).handles
        ≡ 3)
unfolding key_of
begin_ensure-end_all_example =
    begin_ensure-end_all plain_text 10 1 7 (codes "c") asks (omega arith) (omega arith)
      ((refl, (refl, tt)), ((refl, tt), (tt, tt)))
