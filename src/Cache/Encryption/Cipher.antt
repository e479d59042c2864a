-- ===== src/Cache/Encryption/Cipher.antt =====
-- cache/encryption.py, `CacheCipher`: sealing under the current key, opening under any of the keys.
use parcus.Prelude.{
  ℕ, ◌≡◌, ◌≢◌, Bool, true, false, not, ◌||◌, Option, none, some, List, [], ◌∷◌, ◌++◌, length, take,
  drop, ltb, nat_eq, list_eq, ◌==◌, if◌then◌else◌,
}
use parcus.Text.{Text}

abbrev pub Bytes : Type 0
Bytes = List ℕ

-- `AESGCM(key).encrypt(nonce, plaintext, aad)` and `.decrypt(nonce, ciphertext, aad)`, which raises
-- `InvalidTag` (none) for what it cannot authenticate.
pub record Aead : Type 0 where
  pub encrypt : Bytes → Bytes → Bytes → Text → Bytes
  pub decrypt : Bytes → Bytes → Bytes → Text → Option Bytes

abbrev pub nonce_len : ℕ
nonce_len = 12

-- `_HEADER_LEN`: the version byte and the nonce.
abbrev pub header_len : ℕ
header_len = 13

abbrev pub key_len : ℕ
key_len = 32

abbrev version : ℕ
version = 1

-- The keys, the current one first.
pub record CacheCipher : Type 0 where
  pub key : Bytes
  pub previous_keys : List Bytes

unfoldable pub all_key_len : List Bytes → Bool
all_key_len [] = true
all_key_len (k ∷ ks) = if length k == key_len then all_key_len ks else false

-- `CacheCipher(key, previous_keys=…)`: none where it raises `ValueError`.
unfoldable pub new_cipher : Bytes → List Bytes → Option CacheCipher
unfolding all_key_len
new_cipher key previous =
    if all_key_len (key ∷ previous)
    then some (record { key = key; previous_keys = previous })
    else none

module _ (aead : Aead) where
  -- `version || nonce || ciphertext+tag`
  unfoldable pub seal : CacheCipher → Bytes → Text → Bytes → Bytes
  seal c nonce aad plaintext = version ∷ (nonce ++ aead.encrypt c.key nonce plaintext aad)

  -- The loop over the openers.
  unfoldable pub try_keys : List Bytes → Bytes → Bytes → Text → Option Bytes
  try_keys [] nonce ciphertext aad = none
  try_keys (k ∷ ks) nonce ciphertext aad = elim (aead.decrypt k nonce ciphertext aad) [
    | some plaintext ↦ some plaintext
    | none ↦ try_keys ks nonce ciphertext aad
  ]

  unfoldable pub open_blob : CacheCipher → Text → Bytes → Option Bytes
  unfolding try_keys
  open_blob c aad blob =
      if ltb (length blob) header_len || not (take 1 blob == version ∷ [])
      then none
      else try_keys (c.key ∷ c.previous_keys) (take nonce_len (drop 1 blob)) (drop header_len blob)
          aad

-- What AES-GCM promises: a sealed text is opened under the key, nonce and context it was sealed
-- with, and under no other key or context.
pub record IsAuthentic (aead : Aead) : Type 0 where
  pub opens : (k n p : Bytes) (a : Text) → aead.decrypt k n (aead.encrypt k n p a) a ≡ some p
  pub wrong_key :
      (k j n p : Bytes) (a b : Text) → k ≢ j → aead.decrypt j n (aead.encrypt k n p a) b ≡ none
  pub wrong_context :
      (k j n p : Bytes) (a b : Text) → a ≢ b → aead.decrypt j n (aead.encrypt k n p a) b ≡ none
