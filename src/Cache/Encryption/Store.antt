-- ===== src/Cache/Encryption/Store.antt =====
-- cache/encryption.py, `EncryptedCache` over the table of cache/sqlite_cache.py.
pub mod Laws
use parcus.Prelude.{ℕ, Bool, true, false, Option, none, some, List, [], ◌∷◌}
use parcus.Text.{Text}
use parcus.Model.{CachedResponse}
use parcus.Cache.Store as Plain
use parcus.Cache.Store.{Table}
use parcus.Cache.Encryption.Cipher.{Bytes, Aead, CacheCipher, seal, open_blob}
use parcus.Cache.Encryption.Providers.{Resolved, CipherProvider}

-- A row that the cipher opens is answered with its plaintext body; any other is a miss.
unfoldable pub opened : Aead → CacheCipher → Text → Option CachedResponse → Option CachedResponse
unfolding open_blob
opened aead c key none = none
opened aead c key (some hit) = elim (open_blob aead c key hit.body) [
  | none ↦ none
  | some plaintext ↦ some (record hit { body = plaintext })
]

module _ {S : Type 0} (aead : Aead) (provider : CipherProvider S) where
  abbrev pub EncryptedCache : Type 0
  EncryptedCache = S × Table

  -- The answer is none where the provider raises; the engine's `_cache_get` catches that.
  unfoldable pub get :
      Bool → ℕ → EncryptedCache → Text → Text → EncryptedCache × Option (Option CachedResponse)
  unfolding opened Plain.get
  get fails now (s, table) key tenant =
      let (s', answer) = provider.for_tenant s tenant in
      elim answer [
        | none ↦ ((s', table), none)
        | some none ↦ ((s', table), some none)
        | some (some c) ↦
            let (table', hit) = Plain.get fails table now key in
            ((s', table'), some (opened aead c key hit))
      ]

  -- The body is sealed under the tenant's cipher with a fresh nonce. Beside the cache stands
  -- whether the call returned.
  unfoldable pub put :
      Bool → ℕ → EncryptedCache → Text → CachedResponse → ℕ → Text → Bytes → EncryptedCache × Bool
  unfolding seal Plain.put
  put fails now (s, table) key value ttl_seconds tenant nonce =
      let (s', answer) = provider.for_tenant s tenant in
      elim answer [
        | none ↦ ((s', table), false)
        | some none ↦ ((s', table), true)
        | some (some c) ↦
            let sealed = record value { body = seal aead c nonce key value.body } in
            ((s', Plain.put fails table now key sealed ttl_seconds), true)
      ]
