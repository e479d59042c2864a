-- ===== src/Cache/Contexts.antt =====
-- cache/context_cache.py: the handles of the contexts that are registered with a provider. `ensure`
-- awaits the provider once, so it is two steps; SHA-256 is a parameter.
pub mod Cap
pub mod Reuse
pub mod Overlap
use parcus.Prelude.{
  ℕ, ◌+◌, ◌*◌, Bool, true, false, not, Option, none, some, List, [], ◌∷◌, length, keep_if, lookup,
  insert, delete, leb, ltb, nat_eq, list_eq, pair_eq, ◌==◌, if◌then◌else◌,
}
use parcus.Text.{Text}
use parcus.Model.{ContextCacheHandle, is_expired, text_or_empty}

-- `(sha256(credential), model or "", sha256(prefix))`
abbrev pub Key : Type 0
Key = (Text × Text) × Text

abbrev pub Handles : Type 0
Handles = List (Key × ContextCacheHandle)

-- `GeminiContextCacheRegistrar`
pub record Registrar : Type 0 where
  pub ttl_seconds : ℕ
  pub max_entries : ℕ
  pub handles : Handles

abbrev prune_factor : ℕ
prune_factor = 4

-- `_key`
unfoldable pub key_of : (Text → Text) → Text → Option Text → Text → Key
key_of sha256_hex credential model prefix =
    ((sha256_hex credential, text_or_empty model), sha256_hex prefix)

-- `_live_count`
unfoldable pub live_count : ℕ → Handles → ℕ
unfolding is_expired
live_count now [] = 0
live_count now ((k, h) ∷ l) = (if is_expired h now then 0 else 1) + live_count now l

-- `_prune`
unfoldable pub prune : ℕ → Handles → Handles
unfolding is_expired
prune now [] = []
prune now ((k, h) ∷ l) = let kept = prune now l in if is_expired h now then kept else (k, h) ∷ kept

-- `evict_expired`
unfoldable pub evict_expired : Registrar → ℕ → Registrar
unfolding prune
evict_expired r now = record r { handles = prune now r.handles }

-- A context that the provider is asked to create: under which key its handle is kept, for which
-- model, and since when.
pub record Creation : Type 0 where
  pub key : Key
  pub model : Option Text
  pub asked_at : ℕ

-- `ensure` up to the call of `create`: it is settled, or a context is to be created.
pub data Ensuring : Type 0 where
  settled : Option ContextCacheHandle → Ensuring
  creating : Creation → Ensuring

unfoldable pub live : ℕ → Option ContextCacheHandle → Option ContextCacheHandle
unfolding is_expired
live now none = none
live now (some h) = if is_expired h now then none else some h

unfoldable pub pruned : Registrar → ℕ → Handles
unfolding prune
pruned r now =
    if ltb (r.max_entries * prune_factor) (length r.handles) then prune now r.handles else r.handles

unfoldable pub begin_ensure :
    (Text → Text) → Registrar → ℕ → Text → Option Text → Text → Registrar × Ensuring
unfolding pruned key_of lookup delete live live_count
begin_ensure sha256_hex r now credential model prefix =
    let handles = pruned r now in
    let key = key_of sha256_hex credential model prefix in
    let dropped = delete key handles in
    elim (live now (lookup key handles)) [
      | some existing ↦ (record r { handles = handles }, settled (some existing))
      | none ↦ (
        record r { handles = dropped },
        if leb r.max_entries (live_count now dropped)
            then settled none
            else creating (record { key = key; model = model; asked_at = now }),
      )
    ]

-- `ensure` from the answer of `create` on; none where it raised.
unfoldable pub end_ensure :
    Registrar → Creation → Option Text → Registrar × Option ContextCacheHandle
unfolding insert
end_ensure r c none = (r, none)
end_ensure r c (some name) =
    let handle : ContextCacheHandle = record {
      name = name;
      model = text_or_empty c.model;
      expires_at = c.asked_at + r.ttl_seconds;
    } in
    (record r { handles = insert c.key handle r.handles }, some handle)

unfoldable pub settle : Option Text → Registrar × Ensuring → Registrar × Option ContextCacheHandle
unfolding end_ensure
settle created (r, settled answer) = (r, answer)
settle created (r, creating c) = end_ensure r c created

-- `ensure` with nothing in between.
unfoldable pub ensure :
    (Text → Text)
    → Option Text
    → Registrar
    → ℕ
    → Text
    → Option Text
    → Text
    → Registrar × Option ContextCacheHandle
unfolding begin_ensure settle
ensure sha256_hex created r now credential model prefix =
    settle created (begin_ensure sha256_hex r now credential model prefix)
