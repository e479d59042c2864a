-- ===== src/Cache/Similarity/Snapshot.antt =====
-- cache/similarity_store.py: the rows that mirror the index of near-duplicates, and `remember` of
-- cache/similarity.py with its write to them. The packing of vectors is a parameter; `fails` says that
-- the database raised. The table is in the order of its row ids.
pub mod Ciphers
pub mod Restart
use mathlib.Core.List.{reverse}
use parcus.Prelude.{
  ℕ, ◌-◌, Bool, true, false, Option, none, some, List, [], ◌∷◌, ◌++◌, length, drop, if◌then◌else◌,
}
use parcus.Text.{Text}
use parcus.Cache.Encryption.Cipher.{Bytes, Aead, CacheCipher, seal, open_blob}
use parcus.Cache.Encryption.Providers.{CipherProvider}
use parcus.Cache.Similarity.{SimilarityEntry, SimilarityCache, Embedding, remember}

-- `_encode_vector` and `_decode_vector`, none where they raise
pub record Codec (V : Type 0) : Type 0 where
  pub encode : V → Option Bytes
  pub decode : Bytes → Option V

pub record Row : Type 0 where
  pub key : Text
  pub model : Option Text
  pub tenant : Text
  pub vector : Bytes

-- How a blob is sealed for a tenant under a key, with a fresh nonce, and opened. Sealing raises (none),
-- finds the tenant shredded (`some none`), or gives what is stored.
pub record Sealer (S : Type 0) : Type 0 where
  pub sealing : S → Bytes → Text → Text → Bytes → S × Option (Option Bytes)
  pub opening : S → Text → Text → Bytes → S × Option Bytes

-- Without a provider.
unfoldable pub plain_sealer : Sealer Unit
plain_sealer = record {
  sealing = λ s nonce tenant key blob. (s, some (some blob));
  opening = λ s tenant key blob. (s, some blob);
}

-- With a provider.
unfoldable pub cipher_sealer : {S : Type 0} → Aead → CipherProvider S → Sealer S
unfolding seal open_blob
cipher_sealer aead provider = record {
  sealing = λ s nonce tenant key blob.
      let (s', answer) = provider.for_tenant s tenant in
      (
        s',
        elim answer [
          | none ↦ none
          | some none ↦ some none
          | some (some c) ↦ some (some (seal aead c nonce key blob))
        ],
      );
  opening = λ s tenant key blob.
      let (s', answer) = provider.for_tenant s tenant in
      (
        s',
        elim answer [ none ↦ none | some none ↦ none | some (some c) ↦ open_blob aead c key blob ],
      );
}

-- `ORDER BY rowid DESC LIMIT n`, in the order of the ids.
abbrev pub latest {ℓ} : {A : Type ℓ} → ℕ → List A → List A
latest n rows = drop (length rows - n) rows

module _ {V S : Type 0} (codec : Codec V) (sealer : Sealer S) (max_entries : ℕ) where
  abbrev pub Store : Type 0
  Store = S × List Row

  -- `_row_to_entry` of an opened blob
  abbrev pub entry_of : Row → Option Bytes → Option (SimilarityEntry V)
  entry_of row none = none
  entry_of row (some blob) = elim (codec.decode blob) [
    | none ↦ none
    | some v ↦ some (record { vector = v; key = row.key; model = row.model; tenant = row.tenant })
  ]

  abbrev pub cons_some :
      Option (SimilarityEntry V) → List (SimilarityEntry V) → List (SimilarityEntry V)
  cons_some none entries = entries
  cons_some (some entry) entries = entry ∷ entries

  -- The rows are decoded one by one.
  unfoldable pub decode_rows : S → List Row → S × List (SimilarityEntry V)
  decode_rows s [] = (s, [])
  decode_rows s (row ∷ rows) =
      let (s1, blob) = sealer.opening s row.tenant row.key row.vector in
      let (s2, entries) = decode_rows s1 rows in (s2, cons_some (entry_of row blob) entries)

  -- `load`: the latest row first, and the result turned round.
  unfoldable pub load : Bool → Store → Store × List (SimilarityEntry V)
  unfolding decode_rows
  load true store = (store, [])
  load false (s, rows) =
      let (s', entries) = decode_rows s (reverse (latest max_entries rows)) in
      ((s', rows), reverse entries)

  -- `append`
  unfoldable pub append : Bool → Bytes → SimilarityEntry V → Store → Store
  append fails nonce entry (s, rows) = elim (codec.encode entry.vector) [
    | none ↦ (s, rows)
    | some blob ↦
        let (s', answer) = sealer.sealing s nonce entry.tenant entry.key blob in
        elim answer [
          | none ↦ (s', rows)
          | some none ↦ (s', rows)
          | some (some sealed) ↦
              let row : Row = record {
                key = entry.key;
                model = entry.model;
                tenant = entry.tenant;
                vector = sealed;
              } in
              (s', if fails then rows else latest max_entries (rows ++ row ∷ []))
        ]
  ]

  -- `SimilarityCache.remember` with a store
  unfoldable pub remember_through :
      {Score : Type 0}
      → Embedding V Score
      → Bool
      → Bytes
      → Text
      → Text
      → Option Text
      → Text
      → SimilarityCache V Score × Store
      → SimilarityCache V Score × Store
  unfolding remember append
  remember_through e fails nonce text key model tenant (cache, store) = elim (e.embed text) [
    | none ↦ (cache, store)
    | some vector ↦ (
      remember e cache text key model tenant,
      append fails nonce (record { vector = vector; key = key; model = model; tenant = tenant })
          store,
    )
  ]
