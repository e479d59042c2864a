-- ===== src/Cache/Encryption/Opens.antt =====
-- cache/encryption.py, `CacheCipher`: what opening makes of a sealed blob.
use mathlib.Core.Path.{subst}
use parcus.Prelude.{
  ◌≡◌, ◌≢◌, refl, ap, sym, ◌∙◌, false, none, some, List, [], ◌∷◌, ◌++◌, length, take, drop, ltb,
  nat_eq, list_eq, ◌==◌, arith, if◌then◌else◌, length-append, contains, Bool-cases, inl, inr,
  list_beq_iff, ◌&&◌,
}
use parcus.Text.{Text}
use parcus.Cache.Encryption.Cipher.{
  Bytes, Aead, IsAuthentic, CacheCipher, nonce_len, seal, try_keys, open_blob,
}

take-append : (n s : Bytes) → take (length n) (n ++ s) ≡ n
take-append [] s = refl
take-append (c ∷ n) s = ap (λ t. c ∷ t) (take-append n s)

drop-append : (n s : Bytes) → drop (length n) (n ++ s) ≡ s
drop-append [] s = refl
drop-append (c ∷ n) s = drop-append n s

module _ (aead : Aead) where
  -- A sealed blob is opened by trying the keys on its nonce and its ciphertext.
  open_blob-seal :
      (c d : CacheCipher) (n p : Bytes) (a b : Text)
      → length n ≡ nonce_len
      → open_blob aead d b (seal aead c n a p)
        ≡ try_keys aead (d.key ∷ d.previous_keys) n (aead.encrypt c.key n p a) b
  unfolding open_blob seal
  open_blob-seal c d n p a b h =
      let rest = aead.encrypt c.key n p a in
      let long : ltb (length (1 ∷ (n ++ rest))) 13 ≡ false = ground (arith, length-append n rest) in
      let front : take nonce_len (n ++ rest) ≡ n =
        subst (λ k. take k (n ++ rest) ≡ n) h (take-append n rest) in
      let back : drop nonce_len (n ++ rest) ≡ rest =
        subst (λ k. drop k (n ++ rest) ≡ rest) h (drop-append n rest) in
      rw (long, front, back) refl

  module _ (authentic : IsAuthentic aead) where
    decrypt-encrypt :
        (k j n p : Bytes) (a b : Text)
        → aead.decrypt j n (aead.encrypt k n p a) b ≡ (if k == j && a == b then some p else none)
    decrypt-encrypt k j n p a b = elim (Bool-cases (a == b)) [
      | inr e ↦
          let other : a ≢ b = λ q. absurd (cc (sym e ∙ (list_beq_iff a b).1 q)) in
          authentic.wrong_context k j n p a b other ∙ ground arith
      | inl e ↦ elim (Bool-cases (k == j)) [
        | inl q ↦
            rw (e, q)
              (rw (← (list_beq_iff k j).0 q, ← (list_beq_iff a b).0 e) (authentic.opens k n p a))
        | inr q ↦
            let other : k ≢ j = λ h. absurd (cc (sym q ∙ (list_beq_iff k j).1 h)) in
            rw (e, q) (authentic.wrong_key k j n p a b other)
      ]
    ]

    try_keys-encrypt :
        (k : Bytes) (keys : List Bytes) (n p : Bytes) (a b : Text)
        → try_keys aead keys n (aead.encrypt k n p a) b
          ≡ (if contains k keys && a == b then some p else none)
    unfolding try_keys
    try_keys-encrypt k [] n p a b = refl
    try_keys-encrypt k (j ∷ keys) n p a b =
        ground (arith, decrypt-encrypt k j n p a b, try_keys-encrypt k keys n p a b)

    -- A sealed body is opened by exactly the ciphers that hold the key it was sealed with, as their
    -- current key or as a previous one, and only for the cache key it was sealed for.
    pub open_blob-seal_iff :
        (c d : CacheCipher) (n p : Bytes) (a b : Text)
        → length n ≡ nonce_len
        → open_blob aead d b (seal aead c n a p)
          ≡ (if contains c.key (d.key ∷ d.previous_keys) && a == b then some p else none)
    open_blob-seal_iff c d n p a b h =
        open_blob-seal c d n p a b h ∙ try_keys-encrypt c.key (d.key ∷ d.previous_keys) n p a b
