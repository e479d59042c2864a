-- ===== src/Settings.antt =====
-- config/settings.py: the settings with their validators, and what cli.py builds of them. A float is a
-- number of millionths. Base64 and the reading of a file are parameters, none where they raise; the
-- passphrases and salts are texts.
pub mod Accepted
pub mod Rates
use parcus.Prelude.{
  ℕ, ◌*◌, ℤ, pos, negsuc, Bool, true, false, not, ◌&&◌, ◌||◌, Option, none, some, List, [], ◌∷◌,
  map, length, is_empty, contains, keep_if, leb, ltb, ◌==◌, nat_eq, list_eq, if◌then◌else◌,
}
use parcus.Text.{Text, codes, strip, split_on}
use parcus.Quota.{RateLimit}
use parcus.Cache.Encryption.Cipher.{Bytes, CacheCipher, key_len, new_cipher}
use parcus.Cache.Encryption.Providers.{MasterKeys, new_master_keys}

abbrev pub one : ℕ
one = 1_000_000

pub record Settings : Type 0 where
  pub host : Text
  pub port : ℤ
  pub tailnet_ip : Option Text
  pub anthropic_upstream : Text
  pub openai_upstream : Text
  pub gemini_upstream : Text
  pub lossless : Bool
  pub filler : Bool
  pub filler_aggressive : Bool
  pub learned : Bool
  pub learned_ratio : ℤ
  pub learned_model : Text
  pub cache : Bool
  pub cache_ttl_seconds : ℤ
  pub cache_path : Text
  pub cache_nocache_patterns : Text
  pub salt : Text
  pub cache_inject : Bool
  pub gemini_context_cache : Bool
  pub gemini_cache_ttl_seconds : ℤ
  pub gemini_cache_max_entries : ℤ
  pub cache_inject_repeat_aware : Bool
  pub parse_structured : Bool
  pub elide_tool_results : Bool
  pub elide_keep_recent : ℤ
  pub dedup : Bool
  pub dedup_min_chars : ℤ
  pub similarity_cache : Bool
  pub similarity_threshold : ℤ
  pub similarity_max_entries : ℤ
  pub similarity_embedder : Text
  pub similarity_allow_lexical : Bool
  pub similarity_persist : Bool
  pub similarity_path : Text
  pub cache_encryption : Bool
  pub cache_encryption_key : Text
  pub cache_encryption_keyfile : Text
  pub cache_encryption_previous_keys : Text
  pub cache_shredded_tenants : Text
  pub redact : Bool
  pub log_level : Text
  pub metrics : Bool
  pub metrics_path : Text
  pub invariant_sample_rate : ℤ
  pub memory : Bool
  pub memory_inject : Bool
  pub memory_summarize : Bool
  pub memory_keep_recent : ℤ
  pub memory_retrieve : ℤ
  pub memory_summary_items : ℤ
  pub memory_min_messages : ℤ
  pub multi_tenant : Bool
  pub allowed_tenants : Text
  pub rate_limit_per_minute : ℤ
  pub rate_limit_burst : ℤ

-- `[p.strip() for p in text.split(",") if p.strip()]`
unfoldable pub comma_list : Text → List Text
unfolding strip split_on
comma_list text = keep_if (λ p. not (is_empty p)) (map strip (split_on 44 text))

abbrev pub nocache_patterns : Settings → List Text
nocache_patterns s = comma_list s.cache_nocache_patterns

abbrev pub allowed_tenant_set : Settings → List Text
allowed_tenant_set s = comma_list s.allowed_tenants

abbrev pub cache_shredded_tenant_set : Settings → List Text
cache_shredded_tenant_set s = comma_list s.cache_shredded_tenants

abbrev pub previous_key_strings : Settings → List Text
previous_key_strings s = comma_list s.cache_encryption_previous_keys

abbrev pub forbidden_bind : List Text
forbidden_bind = codes "0.0.0.0" ∷ codes "::" ∷ [] ∷ []

abbrev pub is_negative : ℤ → Bool
is_negative (pos n) = false
is_negative (negsuc n) = true

-- `0.0 <= value <= 1.0` and `0.0 < value <= 1.0`
abbrev pub in_unit : ℤ → Bool
in_unit (pos n) = leb n one
in_unit (negsuc n) = false

abbrev pub in_ratio : ℤ → Bool
in_ratio (pos n) = ltb 0 n && leb n one
in_ratio (negsuc n) = false

-- The field validators.
unfoldable pub fields_valid : Settings → Bool
unfolding strip
fields_valid s =
    not (is_negative s.rate_limit_per_minute)
    && not (is_negative s.rate_limit_burst)
    && in_unit s.similarity_threshold
    && in_ratio s.learned_ratio
    && not (contains (strip s.host) forbidden_bind)

-- `_require_safe_similarity_embedder`
unfoldable pub embedder_valid : Settings → Bool
embedder_valid s =
    if not s.similarity_cache
    then true
    else if s.similarity_embedder == codes "local"
    then true
    else s.similarity_embedder == codes "hashing" && s.similarity_allow_lexical

-- `_require_multi_tenant_for_allow_list`
unfoldable pub allow_list_valid : Settings → Bool
unfolding comma_list
allow_list_valid s = is_empty (allowed_tenant_set s) || s.multi_tenant

-- `rate_limit`, for a clock of `ticks` ticks a second.
unfoldable pub rate_limit : ℕ → Settings → Option RateLimit
rate_limit ticks s = elim s.rate_limit_per_minute [
  | negsuc n ↦ none
  | pos rate ↦
      if rate == 0
      then none
      else some (record {
        unit = one * (60 * ticks);
        capacity = elim s.rate_limit_burst [
          | negsuc n ↦ rate * (60 * ticks)
          | pos burst ↦ (if ltb 0 burst then burst else rate) * (60 * ticks)
        ];
        refill = rate;
      })
]

-- What `_build_cipher_provider` builds.
pub data Provider : Type 0 where
  no_provider : Provider
  static : CacheCipher → Provider
  of_tenants : MasterKeys → Provider

module _ (b64decode : Text → Option Bytes) (read_text : Text → Option Text) where
  -- `_decode_key`
  unfoldable pub decode_key : Text → Option Bytes
  decode_key encoded = elim (b64decode encoded) [
    | none ↦ none
    | some raw ↦ if length raw == key_len then some raw else none
  ]

  abbrev decode_if : Text → Option Bytes
  unfolding decode_key
  decode_if [] = none
  decode_if (c ∷ t) = decode_key (c ∷ t)

  -- `cache_encryption_key_bytes`
  unfoldable pub cache_encryption_key_bytes : Settings → Option Bytes
  unfolding decode_if strip
  cache_encryption_key_bytes s =
      if is_empty s.cache_encryption_keyfile
      then decode_if s.cache_encryption_key
      else elim (read_text s.cache_encryption_keyfile) [
        | none ↦ none
        | some text ↦ decode_if (strip text)
      ]

  -- The strings that decode.
  unfoldable pub decoded_keys : List Text → List Bytes
  unfolding decode_key
  decoded_keys [] = []
  decoded_keys (t ∷ ts) =
      let rest = decoded_keys ts in elim (decode_key t) [ none ↦ rest | some raw ↦ raw ∷ rest ]

  abbrev pub cache_encryption_previous_key_bytes : Settings → List Bytes
  cache_encryption_previous_key_bytes s = decoded_keys (previous_key_strings s)

  abbrev pub is_some : Option Bytes → Bool
  is_some none = false
  is_some (some raw) = true

  -- `_require_valid_key_for_encryption`
  unfoldable pub encryption_valid : Settings → Bool
  unfolding cache_encryption_key_bytes decoded_keys comma_list
  encryption_valid s =
      (not s.cache_encryption || is_some (cache_encryption_key_bytes s))
      && (not s.cache_encryption
          || length (cache_encryption_previous_key_bytes s) == length (previous_key_strings s))
      && (is_empty (cache_shredded_tenant_set s) || (s.cache_encryption && s.multi_tenant))

  -- The settings are accepted when no validator raises.
  unfoldable pub accepts : Settings → Bool
  unfolding fields_valid encryption_valid embedder_valid allow_list_valid
  accepts s = fields_valid s && encryption_valid s && embedder_valid s && allow_list_valid s

  abbrev or_raise : {A : Type 0} → (A → Provider) → Option A → Option Provider
  or_raise f none = none
  or_raise f (some a) = some (f a)

  -- `_build_cipher_provider`; none where it raises.
  unfoldable pub build_cipher_provider : Settings → Option Provider
  unfolding cache_encryption_key_bytes decoded_keys comma_list new_cipher new_master_keys
  build_cipher_provider s =
      if not s.cache_encryption then some no_provider else elim (cache_encryption_key_bytes s) [
        | none ↦ none
        | some key ↦
            let previous = cache_encryption_previous_key_bytes s in
            if s.multi_tenant
            then or_raise of_tenants (new_master_keys key previous (cache_shredded_tenant_set s))
            else or_raise static (new_cipher key previous)
      ]
