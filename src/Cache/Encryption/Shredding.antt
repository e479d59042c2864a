-- ===== src/Cache/Encryption/Shredding.antt =====
-- cache/encryption.py, `EpochCipherProvider`: what a tenant stored before its epoch was bumped is
-- lost for good.
use parcus.Prelude.{
  ℕ, ◌<◌, ◌≡◌, ◌≢◌, refl, ap, sym, ◌∙◌, true, false, none, some, List, [], ◌∷◌, map, length,
  contains, append_cancel, Bool-cases, inl, inr, arith, nat_eq, list_eq, pair_eq, list_beq_iff,
  ◌==◌,
}
use parcus.Text.{Text, codes}
use parcus.Text.Decimal.{decimal_injective}
use parcus.Model.{CachedResponse}
use parcus.Cache.Epoch.{Epochs, epoch, bump_all, count_of, epoch-bump_all}
use parcus.Cache.Store as Plain
use parcus.Cache.Store.{Table}
use parcus.Cache.Encryption.Cipher.{
  Bytes, Aead, IsAuthentic, CacheCipher, nonce_len, seal, open_blob, new_cipher,
}
use parcus.Cache.Encryption.Opens.{open_blob-seal_iff}
use parcus.Cache.Encryption.Providers.{
  MasterKeys, info_prefix, epoch_info, derived, resolved, epoch_provider,
}
use parcus.Cache.Encryption.Memo.{IsMemo, epoch_cipher, epoch_provider-IsProvider}
use parcus.Cache.Encryption.Store.{opened, get}
use parcus.Cache.Encryption.Store.Laws.{get-answer}

count_of-pos : (t : Text) (ts : List Text) → contains t ts ≡ true → 0 < count_of t ts
unfolding count_of
count_of-pos t [] h = cc
count_of-pos t (u ∷ ts) h = elim (Bool-cases (u == t)) [
  | inl e ↦ rw e (omega arith)
  | inr e ↦ rw e (count_of-pos t ts (ground (arith, list_beq_iff t u, list_beq_iff u t)))
]

epoch_info_injective : (t : Text) (e f : ℕ) → epoch_info t e ≡ epoch_info t f → e ≡ f
epoch_info_injective t e f h =
    decimal_injective e f
      (append_cancel (codes ":e") _ _ (append_cancel t _ _ (append_cancel info_prefix _ _ h)))

contains-map :
    (x : Bytes) (f : Bytes → Bytes) (ms : List Bytes)
    → ((m : Bytes) → x ≢ f m)
    → contains x (map f ms) ≡ false
contains-map x f [] h = refl
contains-map x f (m ∷ ms) h = ground (arith, h m, list_beq_iff x (f m), contains-map x f ms h)

module _ (hkdf : Bytes → Text → Bytes) (keys : MasterKeys) where
  derived-keys :
      (info : Text) (c : CacheCipher)
      → derived hkdf keys info ≡ some c
      → (c.key ≡ hkdf keys.master info)
        × (c.key ∷ c.previous_keys ≡ map (λ m. hkdf m info) (keys.master ∷ keys.previous_masters))
  unfolding derived new_cipher
  derived-keys info c h = ground arith

  -- The cipher of a later epoch does not hold the key of an earlier one.
  later_key :
      (t : Text) (e f : ℕ) (c d : CacheCipher)
      → ((m n : Bytes)
          → hkdf m (epoch_info t e) ≡ hkdf n (epoch_info t f)
          → epoch_info t e ≡ epoch_info t f)
      → e ≢ f
      → derived hkdf keys (epoch_info t e) ≡ some c
      → derived hkdf keys (epoch_info t f) ≡ some d
      → contains c.key (d.key ∷ d.previous_keys) ≡ false
  later_key t e f c d collide other hc hd =
      let (own, _) = derived-keys (epoch_info t e) c hc in
      let (_, held) = derived-keys (epoch_info t f) d hd in
      let new_key : (m : Bytes) → c.key ≢ hkdf m (epoch_info t f) =
        λ m q. other (epoch_info_injective t e f (collide keys.master m (sym own ∙ q))) in
      ap (contains c.key) held
      ∙ contains-map c.key (λ m. hkdf m (epoch_info t f)) (keys.master ∷ keys.previous_masters)
          new_key

  -- Crypto-shredding: after any bumps of epochs, the tenant's own among them, what the tenant stored
  -- before is a miss for it. There is no way back, whatever the provider has kept, unless the keys
  -- that HKDF derives for the two epochs collide.
  pub get_after_bumps :
      (aead : Aead) (authentic : IsAuthentic aead) (store : Epochs) (t : Text) (bumped : List Text)
      (c d : CacheCipher) (memo : List ((Text × ℕ) × CacheCipher)) (table : Table) (now : ℕ)
      (key : Text) (value : CachedResponse) (nonce : Bytes)
      → ((m n : Bytes)
          → hkdf m (epoch_info t (epoch store t))
            ≡ hkdf n (epoch_info t (epoch (bump_all store bumped) t))
          → epoch_info t (epoch store t) ≡ epoch_info t (epoch (bump_all store bumped) t))
      → contains t bumped ≡ true
      → epoch_cipher hkdf keys (t, epoch store t) ≡ some c
      → epoch_cipher hkdf keys (t, epoch (bump_all store bumped) t) ≡ some d
      → length nonce ≡ nonce_len
      → IsMemo (epoch_cipher hkdf keys) memo
      → (Plain.get false table now key).1
        ≡ some (record value { body = seal aead c nonce key value.body })
      → (get aead
          (epoch_provider hkdf keys (bump_all store bumped))
          false
          now
          (memo, table)
          key
          t).1
        ≡ some none
  unfolding opened
  get_after_bumps aead authentic store t bumped c d memo table now key value nonce collide h hc hd n
        valid row =
      let later : epoch store t ≢ epoch (bump_all store bumped) t =
        λ q. absurd (omega (arith, epoch-bump_all store bumped t, count_of-pos t bumped h, q)) in
      let lost : open_blob aead d key (seal aead c nonce key value.body) ≡ none =
        open_blob-seal_iff aead authentic c d nonce value.body key key n
        ∙ rw (later_key t (epoch store t) (epoch (bump_all store bumped) t) c d collide later hc hd)
            refl in
      get-answer aead authentic (epoch_provider hkdf keys (bump_all store bumped)) _ _
        (epoch_provider-IsProvider hkdf keys (bump_all store bumped)) false now memo table key t d
        valid (ap resolved hd)
      ∙ rw row (rw (lost, opened) refl)
