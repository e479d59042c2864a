-- ===== src/Cache/Contexts/Cap.antt =====
-- cache/context_cache.py: the spend cap, and a handle that is used again.
use parcus.Prelude.{
  ℕ, ◌+◌, ◌≤◌, ◌<◌, ◌≡◌, ◌⊎◌, refl, Option, none, some, [], ◌∷◌, leb, lookup, insert, delete,
  Bool-cases, Option-cases, inl, inr, nat_eq, list_eq, pair_eq, arith,
}
use parcus.Text.{Text}
use parcus.Model.{ContextCacheHandle, is_expired}
use parcus.Cache.Contexts.{
  Key, Handles, Registrar, key_of, live, live_count, prune, pruned, Creation, settled, creating,
  begin_ensure, end_ensure, settle, ensure,
}

live_count-prune : (now : ℕ) (l : Handles) → live_count now (prune now l) ≡ live_count now l
unfolding live_count prune is_expired
live_count-prune now [] = refl
live_count-prune now ((k, h) ∷ l) = ground (arith, live_count-prune now l)

live_count-delete :
    (now : ℕ) (k : Key) (l : Handles) → live_count now (delete k l) ≤ live_count now l
unfolding live_count delete is_expired
live_count-delete now k [] = omega arith
live_count-delete now k ((j, h) ∷ l) = ground (arith, live_count-delete now k l)

live_count-insert :
    (now : ℕ) (k : Key) (h : ContextCacheHandle) (l : Handles)
    → live_count now (insert k h l) ≤ 1 + live_count now l
unfolding live_count insert is_expired
live_count-insert now k h [] = ground arith
live_count-insert now k h ((j, g) ∷ l) = ground (arith, live_count-insert now k h l)

-- Time only ends lives.
live_count-later :
    (now later : ℕ) (l : Handles) → now ≤ later → live_count later l ≤ live_count now l
unfolding live_count is_expired
live_count-later now later [] h = omega arith
live_count-later now later ((k, g) ∷ l) h = ground (arith, live_count-later now later l)

live_count-pruned :
    (r : Registrar) (now : ℕ) → live_count now (pruned r now) ≡ live_count now r.handles
unfolding pruned
live_count-pruned r now = ground (arith, live_count-prune now r.handles)

module _ (sha256_hex : Text → Text) (r : Registrar) (now : ℕ) (credential : Text)
    (model : Option Text) (prefix : Text) where
  -- A context is asked for only below the cap, and nothing is gained before it is there.
  begin_ensure-cap :
      ((begin_ensure sha256_hex r now credential model prefix).0.max_entries ≡ r.max_entries)
      × (live_count now (begin_ensure sha256_hex r now credential model prefix).0.handles
          ≤ live_count now r.handles)
      × (((answer : Option ContextCacheHandle) × ((begin_ensure sha256_hex r now credential model
                prefix).1
              ≡ settled answer))
          ⊎ ((c : Creation) × ((begin_ensure sha256_hex r now credential model prefix).1
                ≡ creating c)
              × (live_count now (begin_ensure sha256_hex r now credential model prefix).0.handles
                  < r.max_entries)))
  unfolding begin_ensure
  begin_ensure-cap =
      let key = key_of sha256_hex credential model prefix in
      let handles = pruned r now in
      elim (Option-cases (live now (lookup key handles))) [
        | inr (existing, e) ↦
            rw (e, begin_ensure) (refl, omega (arith, live_count-pruned r now), inl (_, refl))
        | inl e ↦ elim (Bool-cases (leb r.max_entries (live_count now (delete key handles)))) [
          | inl full ↦
              rw (e, begin_ensure)
                (rw (full, begin_ensure)
                  (
                    refl,
                    omega (arith, live_count-pruned r now, live_count-delete now key handles),
                    inl (_, refl),
                  ))
          | inr room ↦
              rw (e, begin_ensure)
                (rw (room, begin_ensure)
                  (
                    refl,
                    omega (arith, live_count-pruned r now, live_count-delete now key handles),
                    inr (_, refl, ground arith),
                  ))
        ]
      ]

live_count-end_ensure :
    (now : ℕ) (r : Registrar) (c : Creation) (created : Option Text)
    → ((end_ensure r c created).0.max_entries ≡ r.max_entries)
      × (live_count now (end_ensure r c created).0.handles ≤ 1 + live_count now r.handles)
unfolding end_ensure
live_count-end_ensure now r c none = (refl, omega arith)
live_count-end_ensure now r c (some name) = (refl, live_count-insert now c.key _ r.handles)

-- The spend cap: calls of `ensure` that follow one another keep the number of live contexts within
-- the cap, whatever the provider answers and however much time passes in between.
pub ensure-cap :
    (sha256_hex : Text → Text) (created : Option Text) (r : Registrar) (now later : ℕ)
    (credential : Text) (model : Option Text) (prefix : Text)
    → now ≤ later
    → live_count now r.handles ≤ r.max_entries
    → live_count later (ensure sha256_hex created r later credential model prefix).0.handles
      ≤ (ensure sha256_hex created r later credential model prefix).0.max_entries
unfolding ensure settle
ensure-cap sha256_hex created r now later credential model prefix before within =
    let (same, fewer, cases) = begin_ensure-cap sha256_hex r later credential model prefix in
    let r' = (begin_ensure sha256_hex r later credential model prefix).0 in
    let sooner = live_count-later now later r.handles before in
    elim cases [
      | inl (answer, e) ↦ rw (e, settle) (omega arith)
      | inr (c, e, room) ↦
          let (kept, gained) = live_count-end_ensure later r' c created in
          rw (e, settle) (omega arith)
    ]
