-- ===== src/Tests/Setting.antt =====
-- A small setting for proxy/engine.py: ports, settings and a request.
use parcus.Cache.Store as Plain
use parcus.Prelude.{
  ℕ, ◌+◌, ◌*◌, ◌<◌, ◌≡◌, ap, leb, ◌==◌, refl, true, false, none, some, [], ◌∷◌, lookup, beq_refl,
  nat_eq, list_eq, arith,
}
use parcus.Proxy.Engine.{EngineConfig}
use parcus.Model.{CachedResponse}
use parcus.Cache.Policy.{CachePolicy}
use parcus.Json.{Fields, str, arr, obj, nil, cons, end, field}
use parcus.Quota.{RateLimit}
use parcus.Text.{Text, codes}
use parcus.Cache.Seen.{new_seen}
use parcus.Proxy.Engine.Ports.{Ports, Externals, Engine}
use parcus.Proxy.Engine.Result.{Request}
use parcus.Proxy.Engine.Repeats.{IsCaching}

-- The cache of cache/sqlite_cache.py, with a database that answers, and no other state.
unfoldable pub ports : Ports Plain.Table
unfolding Plain.get Plain.put
ports = record {
  compress = λ s r. (s, some (r, []));
  cache_get = λ s now key tenant. let (s', found) = Plain.get false s now key in (s', some found);
  cache_put = λ s now key response ttl tenant. Plain.put false s now key response ttl;
  has_memory = λ s tenant. (s, false);
  ingest = λ s tenant r. (s, false);
  relevant = λ s tenant n text. [];
  has_similarity = false;
  similar = λ s text model tenant. some none;
  remember = λ s text key model tenant. s;
}

Plain-found :
    (s : Plain.Table) (now later : ℕ) (key : Text) (response : CachedResponse) (ttl : ℕ)
    → 0 < ttl
    → later < now + ttl * 1
    → (Plain.get false (Plain.put false s now key response ttl) later key).1 ≡ some response
unfolding Plain.get Plain.put Plain.replace lookup
Plain-found s now later key response ttl lives before =
    let stores : (ttl == 0) ≡ false = ground (arith, lives) in
    let fresh : leb (now + ttl) later ≡ false = ground (arith, before) in
    rw stores (rw (beq_refl key) (rw fresh refl))

-- That database answers every tenant.
abbrev pub Works : Plain.Table → Text → Type 0
Works s tenant = Unit

pub ports-IsCaching : IsCaching ports 1 Works
unfolding ports
ports-IsCaching = record {
  found = λ s now later key response ttl tenant works lives before.
      ap some (Plain-found s now later key response ttl lives before);
  past_compress = λ s r now key tenant. refl;
  past_remember = λ s text k model t now key tenant. refl;
}

abbrev pub asked : Fields
asked = field (codes "role") (str (codes "user")) (field (codes "content") (str (codes "hi")) end)

abbrev pub body : Fields
body =
    field (codes "model") (str (codes "m"))
      (field (codes "messages") (arr (cons (obj asked) nil)) end)

abbrev pub ext : Externals
ext = record {
  lower = λ t. t;
  sha256_hex = λ t. t;
  loads = λ bytes. some (obj body);
  utf8 = λ t. some t;
  int_of = λ t. some 1;
  count = λ t model. some 1;
  has_secret = λ t. some false;
  summarize = λ n ts. [];
}

abbrev pub config : EngineConfig
config = record {
  anthropic_upstream = codes "u";
  openai_upstream = codes "u";
  gemini_upstream = codes "u";
  cache_enabled = true;
  salt = codes "s";
  cache_inject = false;
  cache_inject_repeat_aware = false;
  cache_ttl_seconds = 60;
  parse_structured = true;
  memory_enabled = false;
  memory_inject = false;
  memory_summarize = false;
  memory_keep_recent = 4;
  memory_retrieve = 3;
  memory_summary_items = 5;
  memory_min_messages = 8;
  multi_tenant = true;
  allowed_tenants = [];
}

abbrev pub policy : CachePolicy
policy = record { enabled = true; ttl_seconds = 60; nocache_patterns = []; bypass_on_secret = true }

abbrev pub request : Request
request = record {
  method = codes "POST";
  path = codes "/v1/messages";
  headers = (codes "x-api-key", codes "k") ∷ [];
  body = 1 ∷ [];
  query = [];
}

abbrev pub engine : Engine Plain.Table
engine = record { buckets = []; seen = new_seen 8 300; ports = [] }

abbrev pub limit : RateLimit
limit = record { unit = 1; capacity = 3; refill = 1 }
