-- ===== src/Cache/Similarity/Snapshot/Ciphers.antt =====
-- cache/similarity_store.py: the two ways of sealing, without a provider and with one.
use parcus.Prelude.{
  ◌==◌, false, All, Bool-cases, Option-cases, inl, inr, ◌≡◌, refl, ap, ◌∙◌, Option, none, some,
  List, [], ◌∷◌, length, beq_refl, nat_eq, list_eq,
}
use parcus.Cache.Similarity.{ℕ, SimilarityEntry}
use parcus.Text.{Text}
use parcus.Cache.Encryption.Cipher.{
  Bytes, Aead, IsAuthentic, CacheCipher, nonce_len, seal, open_blob,
}
use parcus.Cache.Encryption.Opens.{open_blob-seal_iff}
use parcus.Cache.Encryption.Providers.{CipherProvider, Resolved, IsProvider}
use parcus.Cache.Similarity.Snapshot.{
  Codec, Row, plain_sealer, cipher_sealer, entry_of, cons_some, decode_rows,
}
use parcus.Cache.Similarity.Snapshot.Restart.{IsSealer}

pub plain_sealer-IsSealer : IsSealer plain_sealer (λ t k b. some b) (λ s. Unit)
unfolding plain_sealer
plain_sealer-IsSealer = record {
  opened = λ s t k b v. refl;
  keeps = λ s t k b v. tt;
  sealed = λ s n t k b v l. (b, refl, refl);
  seals = λ s n t k b v. tt;
}

module _ {S : Type 0} (aead : Aead) (authentic : IsAuthentic aead) (provider : CipherProvider S)
    (cipher : Text → CacheCipher) (Valid : S → Type 0)
    (is_provider : IsProvider provider (λ t. some (some (cipher t))) Valid) where
  opens_own :
      (t k : Text) (n b : Bytes)
      → length n ≡ nonce_len
      → open_blob aead (cipher t) k (seal aead (cipher t) n k b) ≡ some b
  opens_own t k n b l =
      open_blob-seal_iff aead authentic (cipher t) (cipher t) n b k k l
      ∙ rw (beq_refl (cipher t).key, beq_refl k) refl

  -- With a provider that withholds no key, what is stored is opened again.
  pub cipher_sealer-IsSealer :
      IsSealer (cipher_sealer aead provider) (λ t k b. open_blob aead (cipher t) k b) Valid
  unfolding cipher_sealer
  cipher_sealer-IsSealer = record {
    opened = λ s t k b v. rw (is_provider.answers s t v) refl;
    keeps = λ s t k b v. is_provider.keeps s t v;
    sealed = λ s n t k b v l.
        (seal aead (cipher t) n k b, rw (is_provider.answers s t v) refl, opens_own t k n b l);
    seals = λ s n t k b v. is_provider.keeps s t v;
  }

module _ {V S : Type 0} (codec : Codec V) (aead : Aead) (provider : CipherProvider S)
    (max_entries : ℕ) (resolves : Text → Resolved) (Valid : S → Type 0)
    (is_provider : IsProvider provider resolves Valid) where
  abbrev NotOf : Text → SimilarityEntry V → Type 0
  NotOf tenant entry = (entry.tenant == tenant) ≡ false

  cons_some-All :
      (tenant : Text) (row : Row) (blob : Option Bytes) (entries : List (SimilarityEntry V))
      → (row.tenant == tenant) ≡ false
      → All (NotOf tenant) entries
      → All (NotOf tenant) (
          cons_some codec
            (cipher_sealer aead provider)
            max_entries
            (entry_of codec (cipher_sealer aead provider) max_entries row blob)
            entries)
  cons_some-All tenant row none entries other h = h
  cons_some-All tenant row (some blob) entries other h = elim (Option-cases (codec.decode blob)) [
    | inl e ↦ rw (e, entry_of) h
    | inr (v, e) ↦ rw (e, entry_of) (other, h)
  ]

  -- The rows of a tenant whose key is withheld are skipped, and the others decoded.
  pub decode_rows-shredded :
      (s : S) (tenant : Text) (rows : List Row)
      → Valid s
      → resolves tenant ≡ some none
      → All (NotOf tenant) (decode_rows codec (cipher_sealer aead provider) max_entries s rows).1
  unfolding decode_rows cipher_sealer
  decode_rows-shredded s tenant [] v h = tt
  decode_rows-shredded s tenant (row ∷ rows) v h =
      let rest =
        decode_rows-shredded (provider.for_tenant s row.tenant).0 tenant rows
          (is_provider.keeps s row.tenant v) h in
      elim (Bool-cases (row.tenant == tenant)) [
        | inl same ↦
            let withheld : (provider.for_tenant s row.tenant).1 ≡ some none =
              is_provider.answers s row.tenant v
              ∙ ap resolves ((list_eq.beq_iff row.tenant tenant).0 same)
              ∙ h in
            rw withheld rest
        | inr other ↦ cons_some-All tenant row _ _ other rest
      ]
