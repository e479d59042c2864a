-- ===== src/Cache/Encryption/Memo.antt =====
-- cache/encryption.py: a provider that keeps its ciphers answers as one that derives them anew.
use parcus.Prelude.{
  ℕ, ◌≡◌, refl, ap, ◌∙◌, Option, none, some, List, [], ◌++◌, contains, lookup, lookup-insert, Eq,
  pair_eq, Option-cases, Bool-cases, inl, inr, arith, nat_eq, list_eq, if◌then◌else◌,
}
use parcus.Text.{Text}
use parcus.Cache.Epoch.{Epochs, epoch}
use parcus.Cache.Encryption.Cipher.{Bytes, CacheCipher}
use parcus.Cache.Encryption.Providers.{
  Resolved, IsProvider, static_provider, resolved, memoised, MasterKeys, info_prefix, epoch_info,
  derived, tenant_for_tenant, tenant_provider, epoch_for_tenant, epoch_provider, Delegate, resolve,
  kms_for_tenant, kms_provider,
}

module _ {ℓ} {K : Type ℓ} ⦃e : Eq K⦄ (build : K → Option CacheCipher) where
  -- What is kept is what would be built.
  abbrev pub IsMemo : List (K × CacheCipher) → Type ℓ
  IsMemo memo = (k : K) (c : CacheCipher) → lookup k memo ≡ some c → build k ≡ some c

  memoised_answers :
      (k : K) (memo : List (K × CacheCipher))
      → IsMemo memo
      → (memoised k (build k) memo).1 ≡ resolved (build k)
  unfolding memoised
  memoised_answers k memo h = elim (Option-cases (lookup k memo)) [
    | inl q ↦ elim (Option-cases (build k)) [ inl b ↦ ground arith | inr (c, b) ↦ ground arith ]
    | inr (c, q) ↦ ground (arith, h k c q)
  ]

  memoised-IsMemo :
      (k : K) (memo : List (K × CacheCipher)) → IsMemo memo → IsMemo (memoised k (build k) memo).0
  unfolding memoised
  memoised-IsMemo k memo h j c g = elim (Option-cases (lookup k memo)) [
    | inr (d, q) ↦ h j c (ground arith)
    | inl q ↦ elim (Option-cases (build k)) [
      | inl b ↦ h j c (ground arith)
      | inr (d, b) ↦ elim (Bool-cases (e.beq k j)) [
        | inl same ↦ ground (arith, lookup-insert j k d memo, e.beq_iff k j)
        | inr other ↦ h j c (ground (arith, lookup-insert j k d memo))
      ]
    ]
  ]

pub static_provider-IsProvider :
    (c : CacheCipher) → IsProvider (static_provider c) (λ t. some (some c)) (λ s. Unit)
static_provider-IsProvider c = record { answers = λ s t h. refl; keeps = λ s t h. tt }

module _ (hkdf : Bytes → Text → Bytes) (keys : MasterKeys) where
  abbrev pub tenant_cipher : Text → Option CacheCipher
  tenant_cipher t = derived hkdf keys (info_prefix ++ t)

  abbrev pub tenant_resolves : Text → Resolved
  tenant_resolves t = if contains t keys.shredded then some none else resolved (tenant_cipher t)

  -- A tenant's answer is the derived cipher, or the withheld key, whatever was asked before.
  pub tenant_provider-IsProvider :
      IsProvider (tenant_provider hkdf keys) tenant_resolves (IsMemo tenant_cipher)
  unfolding tenant_for_tenant
  tenant_provider-IsProvider = record {
    answers = λ s t h. ground (arith, memoised_answers tenant_cipher t s h);
    keeps = λ s t h. elim (Bool-cases (contains t keys.shredded)) [
      | inl q ↦ rw q h
      | inr q ↦ rw q (memoised-IsMemo tenant_cipher t s h)
    ];
  }

  abbrev pub epoch_cipher : Text × ℕ → Option CacheCipher
  epoch_cipher k = derived hkdf keys (epoch_info k.0 k.1)

  -- The ciphers that are kept stay right when an epoch rises, since they are kept for their epoch.
  pub epoch_provider-IsProvider :
      (store : Epochs)
      → IsProvider
          (epoch_provider hkdf keys store)
          (λ t. resolved (epoch_cipher (t, epoch store t)))
          (IsMemo epoch_cipher)
  unfolding epoch_for_tenant
  epoch_provider-IsProvider store = record {
    answers = λ s t h. memoised_answers epoch_cipher (t, epoch store t) s h;
    keeps = λ s t h. memoised-IsMemo epoch_cipher (t, epoch store t) s h;
  }

module _ (hkdf : Bytes → Text → Bytes) (decrypt_key : Bytes → Option Bytes) (wrapped : Bytes)
    (previous : List Bytes) (shredded : List Text) where
  abbrev unwrapped : Option (Delegate hkdf)
  unwrapped = resolve hkdf decrypt_key wrapped previous shredded none

  abbrev by_delegate : Option (Delegate hkdf) → Text → Resolved
  by_delegate none t = none
  by_delegate (some (keys, memo)) t = tenant_resolves hkdf keys t

  abbrev pub kms_resolves : Text → Resolved
  kms_resolves = by_delegate unwrapped

  -- The delegate is what unwrapping gives, with a dict that is right.
  abbrev pub IsDelegate : Option (Delegate hkdf) → Type 0
  IsDelegate none = Unit
  IsDelegate (some (keys, memo)) =
      (unwrapped ≡ some (keys, [])) × IsMemo (tenant_cipher hkdf keys) memo

  empty-IsMemo : (keys : MasterKeys) → IsMemo (tenant_cipher hkdf keys) []
  empty-IsMemo keys k c h = absurd (unfold lookup in cc h)

  fresh_delegate :
      (keys : MasterKeys) (memo : List (Text × CacheCipher))
      → unwrapped ≡ some (keys, memo)
      → memo ≡ []
  unfolding resolve
  fresh_delegate keys memo h = ground arith

  kms_answers :
      (s : Option (Delegate hkdf)) (t : Text)
      → IsDelegate s
      → (kms_for_tenant hkdf decrypt_key wrapped previous shredded s t).1 ≡ kms_resolves t
  unfolding kms_for_tenant
  kms_answers (some (keys, memo)) t (u, m) =
      rw u ((tenant_provider-IsProvider hkdf keys).answers memo t m)
  kms_answers none t h = elim (Option-cases unwrapped) [
    | inl q ↦ rw (q, kms_for_tenant) refl
    | inr ((keys, memo), q) ↦
        let fresh : unwrapped ≡ some (keys, []) =
          q ∙ ap (λ m. some (keys, m)) (fresh_delegate keys memo q) in
        rw (fresh, kms_for_tenant)
          ((tenant_provider-IsProvider hkdf keys).answers [] t (empty-IsMemo keys))
  ]

  kms_keeps :
      (s : Option (Delegate hkdf)) (t : Text)
      → IsDelegate s
      → IsDelegate (kms_for_tenant hkdf decrypt_key wrapped previous shredded s t).0
  unfolding kms_for_tenant
  kms_keeps (some (keys, memo)) t (u, m) =
      (u, (tenant_provider-IsProvider hkdf keys).keeps memo t m)
  kms_keeps none t h = elim (Option-cases unwrapped) [
    | inl q ↦ rw (q, kms_for_tenant) tt
    | inr ((keys, memo), q) ↦
        let fresh : unwrapped ≡ some (keys, []) =
          q ∙ ap (λ m. some (keys, m)) (fresh_delegate keys memo q) in
        rw (fresh, kms_for_tenant)
          (fresh, (tenant_provider-IsProvider hkdf keys).keeps [] t (empty-IsMemo keys))
  ]

  -- The masters are unwrapped once; from then on the answers are those of a tenant provider, and
  -- as long as the service fails every call raises.
  pub kms_provider-IsProvider :
      IsProvider (kms_provider hkdf decrypt_key wrapped previous shredded) kms_resolves IsDelegate
  unfolding kms_for_tenant
  kms_provider-IsProvider = record { answers = kms_answers; keeps = kms_keeps }
