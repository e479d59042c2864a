-- ===== src/Cache/Encryption/Providers.antt =====
-- cache/encryption.py: the providers, which resolve the cipher of a tenant. HKDF and the key
-- management service are parameters.
use parcus.Prelude.{
  ℕ, ◌≡◌, Option, none, some, List, [], ◌∷◌, ◌++◌, map, contains, lookup, insert, Eq, pair_eq,
  nat_eq, list_eq, if◌then◌else◌,
}
use parcus.Text.{Text, codes}
use parcus.Text.Decimal.{decimal}
use parcus.Cache.Epoch.{Epochs, epoch}
use parcus.Cache.Encryption.Cipher.{Bytes, CacheCipher, all_key_len, new_cipher}

-- What a provider answers: none where it raises, and `some none` where it withholds the key.
abbrev pub Resolved : Type 0
Resolved = Option (Option CacheCipher)

-- `CipherProvider`, an object with state of type `S`.
pub record CipherProvider (S : Type 0) : Type 0 where
  pub for_tenant : S → Text → S × Resolved

-- A provider of answers `resolves`, in the states that its calls can reach.
pub record IsProvider {S : Type 0} (p : CipherProvider S) (resolves : Text → Resolved)
    (Valid : S → Type 0) : Type 0 where
  pub answers : (s : S) (t : Text) → Valid s → (p.for_tenant s t).1 ≡ resolves t
  pub keeps : (s : S) (t : Text) → Valid s → Valid (p.for_tenant s t).0

abbrev pub static_provider : CacheCipher → CipherProvider Unit
static_provider cipher = record { for_tenant = λ s tenant. (s, some (some cipher)) }

abbrev pub resolved : Option CacheCipher → Resolved
resolved none = none
resolved (some c) = some (some c)

-- The dict in which the providers keep the ciphers they have built; `built` is what building the
-- cipher of `key` gives.
unfoldable pub memoised {ℓ} :
    {K : Type ℓ} ⦃e : Eq K⦄
    → K
    → Option CacheCipher
    → List (K × CacheCipher)
    → List (K × CacheCipher) × Resolved
unfolding lookup insert
memoised key built memo = elim (lookup key memo) [
  | some c ↦ (memo, some (some c))
  | none ↦ elim built [ none ↦ (memo, none) | some c ↦ (insert key c memo, some (some c)) ]
]

-- The master keys, the current one first, and the tenants whose keys are withheld.
pub record MasterKeys : Type 0 where
  pub master : Bytes
  pub previous_masters : List Bytes
  pub shredded : List Text

-- The constructors, which raise for a key of the wrong length.
unfoldable pub new_master_keys : Bytes → List Bytes → List Text → Option MasterKeys
unfolding all_key_len
new_master_keys master previous shredded =
    if all_key_len (master ∷ previous)
    then some (record { master = master; previous_masters = previous; shredded = shredded })
    else none

abbrev pub info_prefix : Text
info_prefix = codes "parcus-cache-tenant:"

abbrev pub epoch_info : Text → ℕ → Text
epoch_info tenant e = info_prefix ++ (tenant ++ (codes ":e" ++ decimal e))

module _ (hkdf : Bytes → Text → Bytes) where
  -- The cipher of the keys derived for a piece of context.
  unfoldable pub derived : MasterKeys → Text → Option CacheCipher
  unfolding new_cipher
  derived keys info =
      new_cipher (hkdf keys.master info) (map (λ m. hkdf m info) keys.previous_masters)

  -- `TenantCipherProvider`
  unfoldable pub tenant_for_tenant :
      MasterKeys → List (Text × CacheCipher) → Text → List (Text × CacheCipher) × Resolved
  unfolding derived memoised
  tenant_for_tenant keys memo tenant =
      if contains tenant keys.shredded
      then (memo, some none)
      else memoised tenant (derived keys (info_prefix ++ tenant)) memo

  abbrev pub tenant_provider : MasterKeys → CipherProvider (List (Text × CacheCipher))
  unfolding tenant_for_tenant
  tenant_provider keys = record { for_tenant = tenant_for_tenant keys }

  -- `EpochCipherProvider`, over the epochs that its store holds.
  unfoldable pub epoch_for_tenant :
      MasterKeys
      → Epochs
      → List ((Text × ℕ) × CacheCipher)
      → Text
      → List ((Text × ℕ) × CacheCipher) × Resolved
  unfolding derived memoised epoch
  epoch_for_tenant keys store memo tenant =
      let e = epoch store tenant in memoised (tenant, e) (derived keys (epoch_info tenant e)) memo

  abbrev pub epoch_provider : MasterKeys → Epochs → CipherProvider (List ((Text × ℕ) × CacheCipher))
  unfolding epoch_for_tenant
  epoch_provider keys store = record { for_tenant = epoch_for_tenant keys store }

  -- The masters that are unwrapped one after the other, or none where one call raises.
  unfoldable pub unwrap_all : (Bytes → Option Bytes) → List Bytes → Option (List Bytes)
  unwrap_all decrypt_key [] = some []
  unwrap_all decrypt_key (w ∷ ws) = elim (decrypt_key w) [
    | none ↦ none
    | some key ↦ elim (unwrap_all decrypt_key ws) [ none ↦ none | some keys ↦ some (key ∷ keys) ]
  ]

  abbrev pub Delegate : Type 0
  Delegate = MasterKeys × List (Text × CacheCipher)

  -- `KmsCipherProvider._resolve`
  unfoldable pub resolve :
      (Bytes → Option Bytes) → Bytes → List Bytes → List Text → Option Delegate → Option Delegate
  unfolding unwrap_all new_master_keys
  resolve decrypt_key wrapped previous shredded (some delegate) = some delegate
  resolve decrypt_key wrapped previous shredded none =
      elim (unwrap_all decrypt_key (wrapped ∷ previous)) [
        | some (master ∷ masters) ↦ elim (new_master_keys master masters shredded) [
          | none ↦ none
          | some keys ↦ some (keys, [])
        ]
        | _ ↦ none
      ]

  unfoldable pub kms_for_tenant :
      (Bytes → Option Bytes)
      → Bytes
      → List Bytes
      → List Text
      → Option Delegate
      → Text
      → Option Delegate × Resolved
  unfolding resolve tenant_for_tenant
  kms_for_tenant decrypt_key wrapped previous shredded delegate tenant =
      elim (resolve decrypt_key wrapped previous shredded delegate) [
        | none ↦ (delegate, none)
        | some (keys, memo) ↦
            let (memo', answer) = tenant_for_tenant keys memo tenant in (some (keys, memo'), answer)
      ]

  abbrev pub kms_provider :
      (Bytes → Option Bytes) → Bytes → List Bytes → List Text → CipherProvider (Option Delegate)
  unfolding kms_for_tenant
  kms_provider decrypt_key wrapped previous shredded = record {
    for_tenant = kms_for_tenant decrypt_key wrapped previous shredded;
  }
