-- ===== src/Cache/Store.antt =====
-- cache/sqlite_cache.py: the response cache, a table with the key as its primary key. Times are whole
-- units of the clock. An operation of the database may fail: `fails` says so of a call, and then the
-- handler of the source answers (a miss, or nothing stored).
pub mod Laws
use parcus.Prelude.{
  lookup, delete, ℕ, zero, ◌+◌, Bool, true, false, Option, none, some, List, [], ◌∷◌, leb, nat_eq,
  list_eq, ◌==◌, if◌then◌else◌,
}
use parcus.Text.{Text}
use parcus.Model.{CachedResponse}

pub record Row : Type 0 where
  pub response : CachedResponse
  pub expires_at : ℕ

abbrev pub Table : Type 0
Table = List (Text × Row)

-- `INSERT OR REPLACE`
unfoldable pub replace : Text → Row → Table → Table
unfolding delete
replace k r t = (k, r) ∷ delete k t

unfoldable pub get : Bool → Table → ℕ → Text → Table × Option CachedResponse
unfolding lookup delete
get fails table now key = if fails then (table, none) else elim (lookup key table) [
  | none ↦ (table, none)
  | some row ↦
      if leb row.expires_at now then (delete key table, none) else (table, some row.response)
]

unfoldable pub put : Bool → Table → ℕ → Text → CachedResponse → ℕ → Table
unfolding replace
put fails table now key value ttl_seconds =
    if ttl_seconds == 0
    then table
    else if fails
    then table
    else replace key (record { response = value; expires_at = now + ttl_seconds }) table
