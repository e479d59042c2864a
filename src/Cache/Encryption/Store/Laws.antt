-- ===== src/Cache/Encryption/Store/Laws.antt =====
-- What a client of the encrypted cache can observe.
use parcus.Prelude.{
  ℕ, ◌+◌, ◌≡◌, refl, ◌∙◌, Bool, false, none, some, length, leb, beq_refl, arith, nat_eq, list_eq,
  list_beq_iff, ◌==◌, if◌then◌else◌,
}
use parcus.Text.{Text}
use parcus.Model.{CachedResponse}
use parcus.Cache.Store as Plain
use parcus.Cache.Store.{Table}
use parcus.Cache.Store.Laws.{get-put_store}
use parcus.Cache.Encryption.Cipher.{
  Bytes, Aead, IsAuthentic, CacheCipher, nonce_len, seal, open_blob,
}
use parcus.Cache.Encryption.Opens.{open_blob-seal_iff}
use parcus.Cache.Encryption.Providers.{Resolved, CipherProvider, IsProvider}
use parcus.Cache.Encryption.Store.{opened, get, put}

module _ {S : Type 0} (aead : Aead) (authentic : IsAuthentic aead) (provider : CipherProvider S)
    (resolves : Text → Resolved) (Valid : S → Type 0)
    (lawful : IsProvider provider resolves Valid) where
  pub get-answer :
      (fails : Bool) (now : ℕ) (s : S) (table : Table) (key tenant : Text) (c : CacheCipher)
      → Valid s
      → resolves tenant ≡ some (some c)
      → (get aead provider fails now (s, table) key tenant).1
        ≡ some (opened aead c key (Plain.get fails table now key).1)
  unfolding get
  get-answer fails now s table key tenant c h e = ground (arith, lawful.answers s tenant h)

  put-table :
      (fails : Bool) (now : ℕ) (s : S) (table : Table) (key : Text) (value : CachedResponse)
      (ttl : ℕ) (tenant : Text) (nonce : Bytes) (c : CacheCipher)
      → Valid s
      → resolves tenant ≡ some (some c)
      → (put aead provider fails now (s, table) key value ttl tenant nonce).0 ≡ (
        (provider.for_tenant s tenant).0,
        Plain.put fails table now key
            (record value { body = seal aead c nonce key value.body })
            ttl,
      )
  unfolding put
  put-table fails now s table key value ttl tenant nonce c h e =
      ground (arith, lawful.answers s tenant h)

  opened-sealed :
      (c : CacheCipher) (key : Text) (value : CachedResponse) (nonce : Bytes)
      → length nonce ≡ nonce_len
      → opened aead c key (some (record value { body = seal aead c nonce key value.body }))
        ≡ some value
  unfolding opened
  opened-sealed c key value nonce n =
      let own : open_blob aead c key (seal aead c nonce key value.body) ≡ some value.body =
        open_blob-seal_iff aead authentic c c nonce value.body key key n
        ∙ rw (beq_refl c.key) (rw (beq_refl key) refl) in
      rw (own, opened) refl

  opened-none : (c : CacheCipher) (key : Text) → opened aead c key none ≡ none
  unfolding opened
  opened-none c key = refl

  -- A tenant with a cipher reads from the encrypted cache what it would read from the plain one:
  -- after a `put` that stores, its key answers with the value itself for exactly `ttl_seconds`, and
  -- every other key answers as before.
  pub get-put_encrypted :
      (failed : Bool) (s : S) (table : Table) (now wait ttl : ℕ) (key k : Text)
      (value : CachedResponse) (tenant : Text) (nonce : Bytes) (c : CacheCipher)
      → Valid s
      → resolves tenant ≡ some (some c)
      → length nonce ≡ nonce_len
      → (get aead provider false
          (now + wait)
          (put aead provider failed now (s, table) key value ttl tenant nonce).0
          k
          tenant).1
        ≡ (if ttl == 0
            then (get aead provider false (now + wait) (s, table) k tenant).1
            else if failed
            then (get aead provider false (now + wait) (s, table) k tenant).1
            else if key == k
            then some (if leb ttl wait then none else some value)
            else (get aead provider false (now + wait) (s, table) k tenant).1)
  get-put_encrypted failed s table now wait ttl key k value tenant nonce c h e n =
      let sealed = record value { body = seal aead c nonce key value.body } in
      let after = Plain.put failed table now key sealed ttl in
      let before : (get aead provider false (now + wait) (s, table) k tenant).1
          ≡ some (opened aead c k (Plain.get false table (now + wait) k).1) =
        get-answer false (now + wait) s table k tenant c h e in
      let own : opened aead c key (some sealed) ≡ some value = opened-sealed c key value nonce n in
      rw (put-table failed now s table key value ttl tenant nonce c h e) (
        get-answer false (now + wait) (provider.for_tenant s tenant).0 after k tenant c
          (lawful.keeps s tenant h) e
        ∙ rw (get-put_store failed table now wait ttl key k sealed)
            (rw before (ground (arith, own, opened-none c k, list_beq_iff key k))))
