-- ===== src/Cache/Seen.antt =====
-- cache/seen.py: a bounded set of the prefixes seen lately. The ordered dict is a list, oldest
-- first; times and the time to live are whole units of the clock.
pub mod Window
use parcus.Prelude.{
  lookup, delete, ℕ, zero, suc, ◌+◌, ◌-◌, ◌≤◌, ◌<◌, ◌≡◌, refl, ap, Bool, true, false, ◌&&◌, Option,
  none, some, List, [], ◌∷◌, ◌++◌, length, drop, is_empty, max, leb, ltb, nat_eq, list_eq,
  list_beq_iff, ◌==◌, arith, if◌then◌else◌,
}
use parcus.Text.{Text}

abbrev Sightings : Type 0
Sightings = List (Text × ℕ)

pub record PrefixSeenSet : Type 0 where
  pub max_entries : ℕ
  pub ttl : ℕ
  pub seen : Sightings

unfoldable pub new_seen : ℕ → ℕ → PrefixSeenSet
new_seen max_entries ttl = record { max_entries = max 1 max_entries; ttl = ttl; seen = [] }

-- `f"{tenant}\x00{digest}" if tenant else digest`
unfoldable pub scoped_key : Text → Text → Text
scoped_key [] digest = digest
scoped_key (c ∷ tenant) digest = (c ∷ tenant) ++ (0 ∷ digest)

-- `while len(seen) > max: seen.popitem(last=False)`
unfoldable pub evict : ℕ → Sightings → Sightings
evict cap [] = []
evict cap (e ∷ l) = let rest = evict cap l in if ltb cap (length (e ∷ l)) then rest else e ∷ l

-- `prior is not None and now - prior <= ttl`, where the difference may be negative.
unfoldable pub is_recent : ℕ → ℕ → Option ℕ → Bool
is_recent ttl now none = false
is_recent ttl now (some prior) = leb now (prior + ttl)

unfoldable pub record_and_check : PrefixSeenSet → ℕ → Text → Text → PrefixSeenSet × Bool
unfolding scoped_key lookup delete evict is_recent
record_and_check s now digest tenant =
    let key = scoped_key tenant digest in
    (
      record s { seen = evict s.max_entries (delete key s.seen ++ (key, now) ∷ []) },
      is_recent s.ttl now (lookup key s.seen),
    )
