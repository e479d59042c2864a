-- ===== src/Tests/Services.antt =====
-- quota.py, tenant.py, cache/*.py and memory/*.py on concrete calls and tables.
use parcus.Prelude.{
  drop, ◌-◌, ℕ, ◌+◌, ◌*◌, ◌≤◌, ◌≡◌, refl, true, false, none, some, List, [], ◌∷◌, length, leb,
  arith, nat_eq, list_eq, max, lookup,
}
use parcus.Text.{Text, codes}
use parcus.Json.{str}
use parcus.Model.{user, anthropic, Message, CanonicalRequest, CachedResponse}
use parcus.Quota.{per_minute, RateLimit, consume, refilled}
use parcus.Quota.Bounds.{
  run_own, run_all, decisions_of, times_of, count_allowed, decisions_of-run_all, run_all_bound,
  retry_after_exact,
}
use parcus.Cache.Seen.{new_seen}
use parcus.Cache.Seen.Window.{run, history, run-history}
use parcus.Cache.Store.Laws.{get-put_store}
use parcus.Memory.Compaction.{compact_with_memory, compact_by_summary}
use parcus.Memory.Compaction.Structure.{Ends, compact_with_memory-Ends, compact_without_recent}
use parcus.Cache.Store as Store

abbrev a : Text
a = codes "a"

abbrev b : Text
b = codes "b"

abbrev limit : RateLimit
limit = per_minute 1 2 0

abbrev calls : List (ℕ × Text)
calls = (0, a) ∷ (1, b) ∷ (2, a) ∷ (3, a) ∷ []

decisions_of-run_all_example :
    decisions_of limit a (run_all limit calls [])
    ≡ run_own limit (times_of limit a calls) (lookup a [])
decisions_of-run_all_example = decisions_of-run_all limit a calls []

run_all_bound_example :
    60 * count_allowed limit (decisions_of limit a (run_all limit calls [])) ≤ 120 + (10 - 0) * 2
unfolding lookup times_of
run_all_bound_example =
    run_all_bound limit a calls [] 0 10 refl
      (omega arith, (omega arith, (omega arith, omega arith)))

retry_after_exact_example :
    (consume limit (refilled limit (5 + 26) (record { tokens = 8; updated = 5 }))).1.allowed
    ≡ leb (consume limit (record { tokens = 8; updated = 5 })).1.retry_after 26
unfolding consume
retry_after_exact_example =
    retry_after_exact limit 5 26 (record { tokens = 8; updated = 5 }) (omega arith) (omega arith)
      refl refl

abbrev headers : Text → List (Text × Text)
headers key = (codes "x-api-key", key) ∷ []

abbrev sightings : List (ℕ × Text × Text)
sightings = (0, a, a) ∷ (1, a, b) ∷ (2, b, a) ∷ (3, a, a) ∷ []

run-history_example :
    (run (new_seen 2 5) sightings).seen
    ≡ drop (length (history sightings) - max 1 2) (history sightings)
run-history_example = run-history 2 5 sightings

abbrev response : CachedResponse
response = record { status_code = 200; body = 1 ∷ []; content_type = none }

abbrev table : Store.Table
table = (a, record { response = response; expires_at = 3 }) ∷ []

get-put_store_example :
    (Store.get false (Store.put false table 4 b response 10) (4 + 9) b).1 ≡ some response
get-put_store_example = get-put_store false table 4 9 10 b b response

abbrev said : Text → Message
said t = record { role = user; spans = record { text = t; mutable = true } ∷ []; raw = none }

abbrev long : CanonicalRequest
long = record {
  dialect = anthropic;
  model = str a;
  messages = said a ∷ said b ∷ said a ∷ [];
  system = none;
  stream = false;
  tools_json = none;
  cache_breakpoint = none;
}

compact_with_memory-Ends_example : Ends long 1 (compact_with_memory long (λ q. b ∷ []) 1 2)
compact_with_memory-Ends_example = compact_with_memory-Ends long (λ q. b ∷ []) 1 2

compact_without_recent_example :
    (compact_with_memory long (λ q. b ∷ []) 0 2 ≡ none)
    × (compact_by_summary long (λ ts. b) 0 2 ≡ none)
compact_without_recent_example = compact_without_recent long (λ q. b ∷ []) (λ ts. b) 2 (omega arith)
