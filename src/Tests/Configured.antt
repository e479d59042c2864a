-- ===== src/Tests/Configured.antt =====
-- config/settings.py with settings for one tenant and for many.
use parcus.Prelude.{
  lookup, ◌&&◌, ◌*◌, List, ℕ, ◌≡◌, refl, pos, true, false, Option, none, some, [], ◌∷◌, map, arith,
}
use parcus.Text.{Text, codes, strip, split_on}
use parcus.Cache.Encryption.Cipher.{Bytes}
use parcus.Settings.{
  Settings, Provider, one, rate_limit, accepts, build_cipher_provider, decode_key, comma_list,
  decoded_keys, cache_encryption_key_bytes, fields_valid, encryption_valid, embedder_valid,
  allow_list_valid,
}
use parcus.Settings.Accepted.{Suits, build_cipher_provider-Suits}
use parcus.Settings.Rates.{rate_limit-allows}
use parcus.Quota.{RateLimit, check}

-- A code of one letter stands for 32 bytes of it.
abbrev decode : Text → Option Bytes
decode [] = none
decode (c ∷ t) =
    let letters : List ℕ =
      0 ∷ 1 ∷ 2 ∷ 3 ∷ 4 ∷ 5 ∷ 6 ∷ 7 ∷ 8 ∷ 9 ∷ 10 ∷ 11 ∷ 12 ∷ 13 ∷ 14 ∷ 15 ∷ 16 ∷ 17 ∷ 18 ∷ 19 ∷ 20
      ∷ 21 ∷ 22 ∷ 23 ∷ 24 ∷ 25 ∷ 26 ∷ 27 ∷ 28 ∷ 29 ∷ 30 ∷ 31 ∷ [] in
    some (map (λ n. c) letters)

abbrev read : Text → Option Text
read path = some (codes " K\n")

abbrev settings : Settings
settings = record {
  host = codes "127.0.0.1";
  port = pos 8787;
  tailnet_ip = none;
  anthropic_upstream = codes "https://api.anthropic.com";
  openai_upstream = codes "https://api.openai.com";
  gemini_upstream = codes "https://generativelanguage.googleapis.com";
  lossless = true;
  filler = false;
  filler_aggressive = false;
  learned = false;
  learned_ratio = pos 500_000;
  learned_model = [];
  cache = true;
  cache_ttl_seconds = pos 86_400;
  cache_path = codes ".parcus/cache.sqlite";
  cache_nocache_patterns = [];
  salt = [];
  cache_inject = false;
  gemini_context_cache = false;
  gemini_cache_ttl_seconds = pos 3600;
  gemini_cache_max_entries = pos 64;
  cache_inject_repeat_aware = true;
  parse_structured = false;
  elide_tool_results = false;
  elide_keep_recent = pos 4;
  dedup = false;
  dedup_min_chars = pos 200;
  similarity_cache = false;
  similarity_threshold = pos 950_000;
  similarity_max_entries = pos 2048;
  similarity_embedder = codes "hashing";
  similarity_allow_lexical = false;
  similarity_persist = false;
  similarity_path = codes ".parcus/similarity.sqlite";
  cache_encryption = true;
  cache_encryption_key = [];
  cache_encryption_keyfile = codes "key";
  cache_encryption_previous_keys = codes "A, B";
  cache_shredded_tenants = codes "bob";
  redact = true;
  log_level = codes "INFO";
  metrics = true;
  metrics_path = codes ".parcus/metrics.sqlite";
  invariant_sample_rate = pos 1000000;
  memory = false;
  memory_inject = false;
  memory_summarize = false;
  memory_keep_recent = pos 4;
  memory_retrieve = pos 3;
  memory_summary_items = pos 5;
  memory_min_messages = pos 8;
  multi_tenant = true;
  allowed_tenants = codes "bob,eve";
  rate_limit_per_minute = pos 500_000;
  rate_limit_burst = pos 0;
}

build_cipher_provider-Suits_example :
    (p : Provider) × (build_cipher_provider decode read settings ≡ some p)
    × Suits decode read settings p
unfolding accepts fields_valid encryption_valid embedder_valid allow_list_valid comma_list strip
    split_on decoded_keys decode_key cache_encryption_key_bytes
build_cipher_provider-Suits_example = build_cipher_provider-Suits decode read settings refl

-- Half a request a minute, for a clock of one tick a second.
abbrev half : RateLimit
half = record { unit = one * 60; capacity = 500_000 * 60; refill = 500_000 }

rate_limit-allows_example :
    ((check half 0 (codes "eve") []).1.allowed ≡ false)
    × (((check half 900 (codes "eve") []).1.allowed && true) ≡ false)
unfolding rate_limit lookup
rate_limit-allows_example =
    rate_limit-allows 1 500_000 settings half (omega arith) refl refl 0 900 (codes "eve")
      (codes "eve") [] [] refl
