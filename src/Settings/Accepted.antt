-- ===== src/Settings/Accepted.antt =====
-- config/settings.py and cli.py: settings that are accepted can be built, and as they say.
use parcus.Prelude.{
  ◌&&◌, ◌≤◌, ◌≡◌, refl, ap, true, false, Option, some, List, [], ◌∷◌, map, length, is_empty, arith,
  Bool-cases, Option-cases, inl, inr, nat_eq, list_eq,
}
use parcus.Text.{Text, strip}
use parcus.Cache.Encryption.Cipher.{Bytes, CacheCipher, key_len, all_key_len, new_cipher}
use parcus.Cache.Encryption.Providers.{MasterKeys, new_master_keys}
use parcus.Settings.{
  Settings, Provider, no_provider, static, of_tenants, decode_key, decode_if,
  cache_encryption_key_bytes, decoded_keys, previous_key_strings, cache_shredded_tenant_set,
  accepts, encryption_valid, build_cipher_provider,
}

module _ (b64decode : Text → Option Bytes) (read_text : Text → Option Text) where
  -- The provider holds the keys of the settings, all of them, and the tenants to be shredded.
  abbrev pub Suits : Settings → Provider → Type 0
  unfolding cache_encryption_key_bytes decode_key
  Suits s no_provider = (s.cache_encryption ≡ false) × (cache_shredded_tenant_set s ≡ [])
  Suits s (static c) =
      (s.multi_tenant ≡ false)
      × (cache_encryption_key_bytes b64decode read_text s ≡ some c.key)
      × (map some c.previous_keys ≡ map (decode_key b64decode read_text) (previous_key_strings s))
      × (cache_shredded_tenant_set s ≡ [])
  Suits s (of_tenants keys) =
      (s.multi_tenant ≡ true)
      × (cache_encryption_key_bytes b64decode read_text s ≡ some keys.master)
      × (map some keys.previous_masters
          ≡ map (decode_key b64decode read_text) (previous_key_strings s))
      × (keys.shredded ≡ cache_shredded_tenant_set s)

  decode_key-length :
      (t : Text) (raw : Bytes) → decode_key b64decode read_text t ≡ some raw → length raw ≡ key_len
  unfolding decode_key
  decode_key-length t raw h = elim (Option-cases (b64decode t)) [
    | inl e ↦ absurd (ground arith)
    | inr (r, e) ↦ ground arith
  ]

  decode_if-length :
      (t : Text) (raw : Bytes) → decode_if b64decode read_text t ≡ some raw → length raw ≡ key_len
  unfolding decode_if
  decode_if-length [] raw h = absurd (ground arith)
  decode_if-length (c ∷ t) raw h = decode_key-length (c ∷ t) raw h

  key_bytes-length :
      (s : Settings) (raw : Bytes)
      → cache_encryption_key_bytes b64decode read_text s ≡ some raw
      → length raw ≡ key_len
  unfolding cache_encryption_key_bytes
  key_bytes-length s raw h = elim (Bool-cases (is_empty s.cache_encryption_keyfile)) [
    | inl e ↦ decode_if-length s.cache_encryption_key raw (rw (e, cache_encryption_key_bytes) at h)
    | inr e ↦ elim (Option-cases (read_text s.cache_encryption_keyfile)) [
      | inl f ↦ absurd (ground arith)
      | inr (text, f) ↦
          decode_if-length (strip text) raw (rw f at (rw (e, cache_encryption_key_bytes) at h))
    ]
  ]

  decoded_keys-all_key_len :
      (ts : List Text) → all_key_len (decoded_keys b64decode read_text ts) ≡ true
  unfolding decoded_keys all_key_len
  decoded_keys-all_key_len [] = refl
  decoded_keys-all_key_len (t ∷ ts) = elim (Option-cases (decode_key b64decode read_text t)) [
    | inl e ↦ rw (e, decoded_keys, all_key_len) (decoded_keys-all_key_len ts)
    | inr (raw, e) ↦
        rw (e, decoded_keys, all_key_len)
          (rw (decode_key-length t raw e) (decoded_keys-all_key_len ts))
  ]

  decoded_keys-length : (ts : List Text) → length (decoded_keys b64decode read_text ts) ≤ length ts
  unfolding decoded_keys
  decoded_keys-length [] = omega arith
  decoded_keys-length (t ∷ ts) = ground (arith, decoded_keys-length ts)

  -- Where no string was dropped, each decodes.
  decoded_keys_all :
      (ts : List Text)
      → length (decoded_keys b64decode read_text ts) ≡ length ts
      → map some (decoded_keys b64decode read_text ts) ≡ map (decode_key b64decode read_text) ts
  unfolding decoded_keys
  decoded_keys_all [] h = refl
  decoded_keys_all (t ∷ ts) h = elim (Option-cases (decode_key b64decode read_text t)) [
    | inl e ↦ absurd (ground (arith, decoded_keys-length ts))
    | inr (raw, e) ↦
        rw (e, decoded_keys) (ap (λ l. some raw ∷ l) (decoded_keys_all ts (ground arith)))
  ]

  -- What the validator of the encryption leaves.
  record IsConsistent (s : Settings) : Type 0 where
    has_key :
        s.cache_encryption ≡ true
        → (key : Bytes) × (cache_encryption_key_bytes b64decode read_text s ≡ some key)
    all_decode :
        s.cache_encryption ≡ true
        → length (decoded_keys b64decode read_text (previous_key_strings s))
          ≡ length (previous_key_strings s)
    may_shred : (s.cache_encryption && s.multi_tenant) ≡ false → cache_shredded_tenant_set s ≡ []

  empty : (ts : List Text) → is_empty ts ≡ true → ts ≡ []
  empty [] h = refl
  empty (t ∷ ts) h = absurd (ground arith)

  accepts-IsConsistent : (s : Settings) → accepts b64decode read_text s ≡ true → IsConsistent s
  unfolding accepts encryption_valid
  accepts-IsConsistent s h = record {
    has_key = λ on. elim (Option-cases (cache_encryption_key_bytes b64decode read_text s)) [
      | inl e ↦ absurd (ground arith)
      | inr (key, e) ↦ (key, e)
    ];
    all_decode = λ on. ground arith;
    may_shred = λ off. empty (cache_shredded_tenant_set s) (ground arith);
  }

  keys_fit :
      (s : Settings) (key : Bytes)
      → cache_encryption_key_bytes b64decode read_text s ≡ some key
      → all_key_len (key ∷ decoded_keys b64decode read_text (previous_key_strings s)) ≡ true
  unfolding all_key_len
  keys_fit s key e =
      rw (key_bytes-length s key e) (decoded_keys-all_key_len (previous_key_strings s))

  build_encrypted :
      (s : Settings) (key : Bytes)
      → IsConsistent s
      → s.cache_encryption ≡ true
      → cache_encryption_key_bytes b64decode read_text s ≡ some key
      → (p : Provider) × (build_cipher_provider b64decode read_text s ≡ some p) × Suits s p
  unfolding build_cipher_provider new_master_keys new_cipher
  build_encrypted s key c on e =
      let previous = decoded_keys b64decode read_text (previous_key_strings s) in
      let all = decoded_keys_all (previous_key_strings s) (c.all_decode on) in
      elim (Bool-cases s.multi_tenant) [
        | inl multi ↦
            let keys : MasterKeys = record {
              master = key;
              previous_masters = previous;
              shredded = cache_shredded_tenant_set s;
            } in
            (
              of_tenants keys,
              rw (on, build_cipher_provider) (rw e (rw (multi, keys_fit s key e) refl)),
              (multi, e, all, refl),
            )
        | inr single ↦
            let cipher : CacheCipher = record { key = key; previous_keys = previous } in
            (
              static cipher,
              rw (on, build_cipher_provider) (rw e (rw (single, keys_fit s key e) refl)),
              (single, e, all, c.may_shred (rw (on, single) refl)),
            )
      ]

  -- Settings that are accepted can be built: the cipher provider is built without an exception, and
  -- holds the key of the settings and every previous key, none dropped; with many tenants it
  -- withholds the keys of exactly the tenants that the settings name, and no tenant is named where
  -- there is no key to withhold.
  pub build_cipher_provider-Suits :
      (s : Settings)
      → accepts b64decode read_text s ≡ true
      → (p : Provider) × (build_cipher_provider b64decode read_text s ≡ some p) × Suits s p
  unfolding build_cipher_provider
  build_cipher_provider-Suits s h =
      let c = accepts-IsConsistent s h in
      elim (Bool-cases s.cache_encryption) [
        | inl on ↦ let (key, e) = c.has_key on in build_encrypted s key c on e
        | inr off ↦
            (no_provider, rw (off, build_cipher_provider) refl, (off, c.may_shred (rw off refl)))
      ]
