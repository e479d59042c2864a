-- ===== src/Cache/Store/Laws.antt =====
-- What a client of the cache can observe.
use parcus.Prelude.{
  lookup, lookup-delete, ℕ, ◌+◌, ◌≡◌, refl, ◌∙◌, ap, sym, Bool, false, Option, none, some, leb,
  nat_eq, list_eq, list_beq_iff, ◌==◌, arith, if◌then◌else◌,
}
use parcus.Text.{Text}
use parcus.Model.{CachedResponse}
use parcus.Cache.Store.{Table, replace, get, put}

-- The live response under a key at a time: what the cache stands for.
unfoldable pub view : Table → ℕ → Text → Option CachedResponse
view table now key = elim (lookup key table) [
  | none ↦ none
  | some row ↦ if leb row.expires_at now then none else some row.response
]

-- `get` answers with the live response, or with a miss if the database fails.
get-view :
    (fails : Bool) (table : Table) (now : ℕ) (key : Text)
    → (get fails table now key).1 ≡ (if fails then none else view table now key)
unfolding get view
get-view fails table now key = ground arith

-- The lazy deletion of `get` changes no answer, at the same time or later.
view-get :
    (fails : Bool) (table : Table) (now wait : ℕ) (key k : Text)
    → view (get fails table now key).0 (now + wait) k ≡ view table (now + wait) k
unfolding get view
view-get fails table now wait key k = ground (arith, lookup-delete k key table, list_beq_iff key k)

-- After `put` the key answers with the new response for exactly `ttl_seconds`, and every other key
-- as before; a time to live of zero, or a failing database, changes nothing.
view-put :
    (fails : Bool) (table : Table) (now wait ttl : ℕ) (key k : Text) (value : CachedResponse)
    → view (put fails table now key value ttl) (now + wait) k ≡ (
        if ttl == 0
        then view table (now + wait) k
        else if fails
        then view table (now + wait) k
        else if key == k
        then (if leb ttl wait then none else some value)
        else view table (now + wait) k)
unfolding put view replace lookup
view-put fails table now wait ttl key k value =
    ground (arith, lookup-delete k key table, list_beq_iff key k)

-- An entry that `get` deletes because it is out of date is missed by no later `get`: whatever keys
-- the two calls ask for, and whichever of them the database fails, the later one answers as it
-- would without the first.
pub get-get :
    (fails failed : Bool) (table : Table) (now wait : ℕ) (key k : Text)
    → (get fails (get failed table now key).0 (now + wait) k).1 ≡ (get fails table (now + wait) k).1
get-get fails failed table now wait key k =
    get-view fails (get failed table now key).0 (now + wait) k
    ∙ ap (λ v. if fails then none else v) (view-get failed table now wait key k)
    ∙ sym (get-view fails table (now + wait) k)

-- After a `put` that stores, the key answers with the new response for exactly `ttl_seconds`, and
-- every other key answers as before. A time to live of zero, or a failing database, stores nothing.
pub get-put_store :
    (failed : Bool) (table : Table) (now wait ttl : ℕ) (key k : Text) (value : CachedResponse)
    → (get false (put failed table now key value ttl) (now + wait) k).1 ≡ (
        if ttl == 0
        then (get false table (now + wait) k).1
        else if failed
        then (get false table (now + wait) k).1
        else if key == k
        then (if leb ttl wait then none else some value)
        else (get false table (now + wait) k).1)
get-put_store failed table now wait ttl key k value =
    get-view false (put failed table now key value ttl) (now + wait) k
    ∙ view-put failed table now wait ttl key k value
    ∙ rw (get-view false table (now + wait) k) refl
