-- ===== src/Proxy/Engine/Keys.antt =====
-- proxy/engine.py, `_maybe_cache_key`: the keys of two tenants, and what is never cached.
use mathlib.Core.List.{append_assoc}
use parcus.Prelude.{
  ℕ, ◌≡◌, ◌≢◌, ◌⊎◌, refl, sym, ◌∙◌, Bool, true, false, ◌&&◌, Option, none, some, [], ◌∷◌, ◌++◌,
  length, is_empty, append_cancel, append_prefix, Bool-cases, Option-cases, inl, inr, arith,
  if◌then◌else◌, nat_eq, list_eq, ◌==◌,
}
use parcus.Text.{Text, codes}
use parcus.Json.{null, dumps, canonical_style}
use parcus.Model.{gemini, dialect_eq, CanonicalRequest, request_text}
use parcus.Cache.Policy.{CachePolicy, should_cache, payload, compute_key}
use parcus.Proxy.Engine.{EngineConfig, is_null, tenant_salt, ask_policy, maybe_cache_key}

-- The text that is hashed for a request of a tenant.
abbrev pub hashed : EngineConfig → Text → CanonicalRequest → Text
hashed config tenant r =
    let salt = tenant_salt config.salt tenant in
    let blob = dumps canonical_style (payload r) in
    if is_empty salt then blob else salt ++ (0 ∷ blob)

is_empty-append : (s : Text) (c : ℕ) (t : Text) → is_empty (s ++ c ∷ t) ≡ false
is_empty-append [] c t = refl
is_empty-append (d ∷ s) c t = refl

hashed_nonempty :
    (config : EngineConfig) (c : ℕ) (t : Text) (r : CanonicalRequest)
    → hashed config (c ∷ t) r
      ≡ config.salt ++ (codes "|t:" ++ ((c ∷ t) ++ (0 ∷ dumps canonical_style (payload r))))
hashed_nonempty config c t r =
    rw (is_empty-append config.salt 124 (116 ∷ 58 ∷ c ∷ t))
      (append_assoc config.salt (codes "|t:" ++ (c ∷ t)) (0 ∷ dumps canonical_style (payload r)))

maybe_cache_key-some :
    (sha256_hex : Text → Text) (config : EngineConfig) (policy : CachePolicy)
    (has_secret : Text → Option Bool) (r : CanonicalRequest) (tenant key : Text)
    → maybe_cache_key sha256_hex config policy has_secret r tenant ≡ some key
    → key ≡ codes "v1:" ++ sha256_hex (hashed config tenant r)
unfolding maybe_cache_key compute_key
maybe_cache_key-some sha256_hex config policy has_secret r tenant key h = ground arith

tenants_of_hashed :
    (config : EngineConfig) (t u : Text) (r q : CanonicalRequest)
    → length t ≡ length u
    → hashed config t r ≡ hashed config u q
    → t ≡ u
tenants_of_hashed config [] [] r q e h = refl
tenants_of_hashed config [] (d ∷ u) r q e h = absurd (omega arith)
tenants_of_hashed config (c ∷ t) [] r q e h = absurd (omega arith)
tenants_of_hashed config (c ∷ t) (d ∷ u) r q e h =
    append_prefix (c ∷ t) (d ∷ u) (0 ∷ dumps canonical_style (payload r))
      (0 ∷ dumps canonical_style (payload q)) e
      (append_cancel (codes "|t:") _ _ (
        append_cancel config.salt _ _
          (sym (hashed_nonempty config c t r) ∙ h ∙ hashed_nonempty config d u q)))

-- A key is shared by one tenant's requests only: if requests of two tenants, whose ids have one
-- length, get the same key, and the digests of the two texts that were hashed do not collide, then
-- the tenants are the same.
pub maybe_cache_key_shared :
    (sha256_hex : Text → Text) (config : EngineConfig) (policy : CachePolicy)
    (has_secret : Text → Option Bool) (r q : CanonicalRequest) (t u key : Text)
    → length t ≡ length u
    → (sha256_hex (hashed config t r) ≡ sha256_hex (hashed config u q)
        → hashed config t r ≡ hashed config u q)
    → maybe_cache_key sha256_hex config policy has_secret r t ≡ some key
    → maybe_cache_key sha256_hex config policy has_secret q u ≡ some key
    → t ≡ u
maybe_cache_key_shared sha256_hex config policy has_secret r q t u key e collide h g =
    tenants_of_hashed config t u r q e (
      collide (
        append_cancel (codes "v1:") _ _ (
          sym (maybe_cache_key-some sha256_hex config policy has_secret r t key h)
          ∙ maybe_cache_key-some sha256_hex config policy has_secret q u key g)))

asked_in_vain :
    (policy : CachePolicy) (has_secret : Text → Option Bool) (r : CanonicalRequest)
    → policy.bypass_on_secret ≡ true
    → has_secret (request_text r) ≢ some false
    → (ask_policy policy has_secret r ≡ none) ⊎ (ask_policy policy has_secret r ≡ some false)
unfolding ask_policy
asked_in_vain policy has_secret r bypass found = elim (Bool-cases (should_cache policy r none)) [
  | inr e ↦ inr (ground arith)
  | inl e ↦ elim (Option-cases (has_secret (request_text r))) [
    | inl q ↦ inl (ground arith)
    | inr (true, q) ↦ inr (ground arith)
    | inr (false, q) ↦ absurd (found q)
  ]
]

-- No key is made, and so no answer cached, for a streaming request, for a Gemini request without a
-- model, while the cache is off, or when secrets are kept out and the redactor raises or finds one.
pub maybe_cache_key-none :
    (sha256_hex : Text → Text) (config : EngineConfig) (policy : CachePolicy)
    (has_secret : Text → Option Bool) (r : CanonicalRequest) (tenant : Text)
    → (config.cache_enabled ≡ false)
      ⊎ (r.stream ≡ true)
      ⊎ ((r.dialect ≡ gemini) × (r.model ≡ null))
      ⊎ ((policy.bypass_on_secret ≡ true) × (has_secret (request_text r) ≢ some false))
    → maybe_cache_key sha256_hex config policy has_secret r tenant ≡ none
unfolding maybe_cache_key ask_policy
maybe_cache_key-none sha256_hex config policy has_secret r tenant (inl off) = ground arith
maybe_cache_key-none sha256_hex config policy has_secret r tenant (inr (inl stream)) = ground arith
maybe_cache_key-none sha256_hex config policy has_secret r tenant (inr (inr (inl (d, m)))) =
    let test : (r.dialect == gemini && is_null r.model) ≡ true = rw d (rw m refl) in
    rw (test, maybe_cache_key) (ground arith)
maybe_cache_key-none sha256_hex config policy has_secret r tenant
      (inr (inr (inr (bypass, found)))) =
    elim (asked_in_vain policy has_secret r bypass found) [
      | inl e ↦ rw (e, maybe_cache_key) (ground arith)
      | inr e ↦ rw (e, maybe_cache_key) (ground arith)
    ]
