-- ===== src/Cache/Contexts/Reuse.antt =====
-- cache/context_cache.py: a handle that is registered is used again until it expires.
use mathlib.Core.Path.{subst}
use parcus.Prelude.{
  ℕ, ◌≡◌, ◌⊎◌, refl, ap, sym, ◌∙◌, false, Option, none, some, [], ◌∷◌, leb, lookup, delete,
  lookup-insert, Bool-cases, Option-cases, inl, inr, nat_eq, list_eq, pair_eq, arith, beq_refl,
}
use parcus.Text.{Text}
use parcus.Model.{ContextCacheHandle, is_expired}
use parcus.Cache.Contexts.{
  Key, Handles, Registrar, key_of, live, live_count, prune, pruned, Creation, Ensuring, settled,
  creating, begin_ensure, end_ensure, settle, ensure,
}

lookup-prune :
    (now : ℕ) (key : Key) (h : ContextCacheHandle) (l : Handles)
    → lookup key l ≡ some h
    → is_expired h now ≡ false
    → lookup key (prune now l) ≡ some h
unfolding lookup prune
lookup-prune now key h [] e alive = e
lookup-prune now key h ((k, g) ∷ l) e alive = ground (arith, lookup-prune now key h l)

lookup-pruned :
    (r : Registrar) (now : ℕ) (key : Key) (h : ContextCacheHandle)
    → lookup key r.handles ≡ some h
    → is_expired h now ≡ false
    → lookup key (pruned r now) ≡ some h
unfolding pruned
lookup-pruned r now key h e alive = ground (arith, lookup-prune now key h r.handles)

live-some :
    (now : ℕ) (o : Option ContextCacheHandle) (h : ContextCacheHandle)
    → live now o ≡ some h
    → o ≡ some h
unfolding live
live-some now none h e = e
live-some now (some g) h e = ground arith

abbrev answer_of : Ensuring → Option ContextCacheHandle
answer_of (settled answer) = answer
answer_of (creating c) = none

abbrev key_in : Key → Ensuring → Key
key_in key (settled answer) = key
key_in key (creating c) = c.key

module _ (sha256_hex : Text → Text) (credential : Text) (model : Option Text) (prefix : Text) where
  begin_ensure-cases :
      (r : Registrar) (now : ℕ)
      → ((h : ContextCacheHandle) × ((begin_ensure sha256_hex r now credential model prefix).1
            ≡ settled (some h))
          × (lookup
                (key_of sha256_hex credential model prefix)
                (begin_ensure sha256_hex r now credential model prefix).0.handles
              ≡ some h))
        ⊎ (((begin_ensure sha256_hex r now credential model prefix).1 ≡ settled none)
            ⊎ ((begin_ensure sha256_hex r now credential model prefix).1
                ≡ creating (record {
                  key = key_of sha256_hex credential model prefix;
                  model = model;
                  asked_at = now;
                })))
  unfolding begin_ensure
  begin_ensure-cases r now =
      let key = key_of sha256_hex credential model prefix in
      elim (Option-cases (live now (lookup key (pruned r now)))) [
        | inr (h, e) ↦ inl (
          h,
          rw (e, begin_ensure) refl,
          rw (e, begin_ensure) (live-some now (lookup key (pruned r now)) h e),
        )
        | inl e ↦
            elim (Bool-cases (leb r.max_entries (live_count now (delete key (pruned r now))))) [
              | inl full ↦ inr (inl (rw (e, begin_ensure) (rw (full, begin_ensure) refl)))
              | inr room ↦ inr (inr (rw (e, begin_ensure) (rw (room, begin_ensure) refl)))
            ]
      ]

  lookup-end_ensure :
      (r : Registrar) (c : Creation) (created : Option Text) (h : ContextCacheHandle)
      → (end_ensure r c created).1 ≡ some h
      → lookup c.key (end_ensure r c created).0.handles ≡ some h
  unfolding end_ensure
  lookup-end_ensure r c none h e = absurd (ground arith)
  lookup-end_ensure r c (some name) h e =
      rw (lookup-insert c.key c.key _ r.handles) (rw (beq_refl c.key) e)

  lookup-settle :
      (created : Option Text) (r : Registrar) (begun : Ensuring) (key : Key)
      (h : ContextCacheHandle)
      → ((g : ContextCacheHandle) → begun ≡ settled (some g) → lookup key r.handles ≡ some g)
      → ((c : Creation) → begun ≡ creating c → c.key ≡ key)
      → (settle created (r, begun)).1 ≡ some h
      → lookup key (settle created (r, begun)).0.handles ≡ some h
  unfolding settle
  lookup-settle created r (settled answer) key h held own e = held h (ap settled e)
  lookup-settle created r (creating c) key h held own e =
      subst (λ k. lookup k (end_ensure r c created).0.handles ≡ some h) (own c refl)
        (lookup-end_ensure r c created h e)

  lookup-ensure :
      (created : Option Text) (r : Registrar) (now : ℕ) (h : ContextCacheHandle)
      → (ensure sha256_hex created r now credential model prefix).1 ≡ some h
      → lookup
          (key_of sha256_hex credential model prefix)
          (ensure sha256_hex created r now credential model prefix).0.handles
        ≡ some h
  unfolding ensure
  lookup-ensure created r now h e =
      let begun = begin_ensure sha256_hex r now credential model prefix in
      let key = key_of sha256_hex credential model prefix in
      let cases = begin_ensure-cases r now in
      lookup-settle created begun.0 begun.1 key h
        (λ g q. elim cases [
          | inl (_, b, found) ↦ found ∙ ap answer_of (sym b ∙ q)
          | inr (inl b) ↦ absurd (ground (arith, b, q))
          | inr (inr b) ↦ absurd (ground (arith, b, q))
        ])
        (λ c q. elim cases [
          | inl (_, b, found) ↦ absurd (ground (arith, b, q))
          | inr (inl b) ↦ absurd (ground (arith, b, q))
          | inr (inr b) ↦ ap (key_in key) (sym q ∙ b)
        ])
        e

  -- A handle that `ensure` returned is returned again, and no other context is asked for, as long as
  -- it has not expired.
  pub ensure-again :
      (created : Option Text) (r : Registrar) (now later : ℕ) (h : ContextCacheHandle)
      → (ensure sha256_hex created r now credential model prefix).1 ≡ some h
      → is_expired h later ≡ false
      → (begin_ensure sha256_hex
          (ensure sha256_hex created r now credential model prefix).0
          later
          credential
          model
          prefix).1
        ≡ settled (some h)
  unfolding begin_ensure live
  ensure-again created r now later h e alive =
      let r' = (ensure sha256_hex created r now credential model prefix).0 in
      rw
        (
          lookup-pruned r' later (key_of sha256_hex credential model prefix) h
              (lookup-ensure created r now h e) alive,
          begin_ensure,
        )
        (rw (alive, begin_ensure) refl)
