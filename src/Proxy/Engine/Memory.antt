-- ===== src/Proxy/Engine/Memory.antt =====
-- proxy/engine.py, `_apply_memory`: the request is ingested and, if settings allow, compacted.
use parcus.Prelude.{ℕ, Bool, true, false, not, none, some, List, [], ◌∷◌, if◌then◌else◌}
use parcus.Text.{Text}
use parcus.Model.{Message, CanonicalRequest}
use parcus.Memory.Compaction.{Compacted, compact_with_memory, compact_by_summary}
use parcus.Proxy.Engine.{EngineConfig}
use parcus.Proxy.Engine.Ports.{Ports, Externals}

pub data MemoryAction : Type 0 where
  memory_off memory_ingest memory_compact memory_summary : MemoryAction

unfoldable pub any_structured : List Message → Bool
any_structured [] = false
any_structured (m ∷ ms) = elim m.raw [ none ↦ any_structured ms | some _ ↦ true ]

-- What a compaction that may raise makes of the request.
unfoldable pub after_compaction :
    CanonicalRequest → MemoryAction → Compacted → CanonicalRequest × MemoryAction
after_compaction r action none = (r, memory_ingest)
after_compaction r action (some (new, changed)) = (new, if changed then action else memory_ingest)

-- The compaction of a request that was ingested.
unfoldable pub compacted_request :
    EngineConfig
    → (ℕ → List Text → Text)
    → (Text → List Text)
    → CanonicalRequest
    → CanonicalRequest × MemoryAction
unfolding any_structured after_compaction compact_by_summary compact_with_memory
compacted_request config summarize relevant r =
    if any_structured r.messages
    then (r, memory_ingest)
    else if config.memory_summarize
    then after_compaction r memory_summary (
        compact_by_summary r (summarize config.memory_summary_items) config.memory_keep_recent
          config.memory_min_messages)
    else if not config.memory_inject
    then (r, memory_ingest)
    else after_compaction r memory_compact
        (compact_with_memory r relevant config.memory_keep_recent config.memory_min_messages)

-- `working is not canonical`
abbrev pub is_compacted : MemoryAction → Bool
is_compacted memory_compact = true
is_compacted memory_summary = true
is_compacted _ = false

module _ {S : Type 0} (ext : Externals) (ports : Ports S) (config : EngineConfig) where
  unfoldable pub apply_memory : S → CanonicalRequest → Text → S × CanonicalRequest × MemoryAction
  unfolding compacted_request
  apply_memory s r tenant =
      let (s1, found) = ports.has_memory s tenant in
      let (s2, ingested) = ports.ingest s1 tenant r in
      if not config.memory_enabled
      then (s, r, memory_off)
      else if not found
      then (s1, r, memory_off)
      else if not ingested
      then (s2, r, memory_off)
      else let (new, action) =
          compacted_request config ext.summarize (ports.relevant s2 tenant config.memory_retrieve)
            r in
        (s2, new, action)
