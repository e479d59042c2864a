-- ===== src/Proxy/Engine/Admit.antt =====
-- proxy/engine.py: the guards with which `_handle` and `prepare_stream` both begin. A request is
-- routed, its tenant derived and authorized, and its rate checked, before anything else happens.
use parcus.Prelude.{
  ℕ, ◌≡◌, ◌⊎◌, Bool, true, not, ◌||◌, Option, none, some, [], is_empty, Option-cases, inl, inr,
  arith, if◌then◌else◌,
}
use parcus.Text.{Text}
use parcus.Model.{Dialect}
use parcus.Quota.{RateLimit, Buckets, check}
use parcus.Tenant.{Headers, derive_tenant, is_authorized}
use parcus.Proxy.Engine.{EngineConfig, route}

-- What becomes of the request: an early answer with its status and, if the rate is exceeded, the
-- time to wait, or the base URL and the tenant to go on with.
pub data Admission : Type 0 where
  unrouted : Admission
  unauthorized : Admission
  limited : ℕ → Admission
  admitted : Text → Text → Admission

unfoldable pub status : Admission → Option ℕ
status unrouted = some 502
status unauthorized = some 401
status (limited retry_after) = some 429
status (admitted base tenant) = none

-- The tenant is derived in hosted mode, and where there is an allow-list.
unfoldable pub tenant_of : (Text → Text) → (Text → Text) → EngineConfig → Headers → Text
unfolding derive_tenant
tenant_of lower sha256_hex config hs =
    if config.multi_tenant || not (is_empty config.allowed_tenants)
    then derive_tenant lower sha256_hex hs config.salt
    else []

-- The rate limiter is optional.
unfoldable pub check_rate : Option RateLimit → ℕ → Text → Text → Buckets → Buckets × Admission
unfolding check
check_rate none now base tenant buckets = (buckets, admitted base tenant)
check_rate (some limit) now base tenant buckets =
    let (buckets', decision) = check limit now tenant buckets in
    (buckets', if decision.allowed then admitted base tenant else limited decision.retry_after)

unfoldable pub admit :
    (Text → Text)
    → (Text → Text)
    → EngineConfig
    → Option RateLimit
    → ℕ
    → Dialect
    → Headers
    → Buckets
    → Buckets × Admission
unfolding route tenant_of is_authorized check_rate
admit lower sha256_hex config limiter now dialect hs buckets =
    elim (route lower config dialect hs) [
      | none ↦ (buckets, unrouted)
      | some base ↦
          let tenant = tenant_of lower sha256_hex config hs in
          if is_authorized tenant config.allowed_tenants
          then check_rate limiter now base tenant buckets
          else (buckets, unauthorized)
    ]

-- The decision on the tenant's request; without a limiter every request is allowed.
abbrev pub rate_allows : Option RateLimit → ℕ → Text → Buckets → Bool
rate_allows none now tenant buckets = true
rate_allows (some limit) now tenant buckets = (check limit now tenant buckets).1.allowed

check_rate-admitted :
    (limiter : Option RateLimit) (now : ℕ) (base tenant : Text) (buckets after : Buckets)
    (b t : Text)
    → check_rate limiter now base tenant buckets ≡ (after, admitted b t)
    → (base ≡ b) × (tenant ≡ t) × (rate_allows limiter now tenant buckets ≡ true)
unfolding check_rate
check_rate-admitted none now base tenant buckets after b t h = ground arith
check_rate-admitted (some limit) now base tenant buckets after b t h = ground arith

-- The guards fail closed: a request goes on only if it has a route, to the base URL of that route,
-- if the tenant derived from its own headers is authorized, and if the rate limiter, where there is
-- one, allows that tenant's request.
pub admit-admitted :
    (lower sha256_hex : Text → Text) (config : EngineConfig) (limiter : Option RateLimit) (now : ℕ)
    (dialect : Dialect) (hs : Headers) (buckets after : Buckets) (base tenant : Text)
    → admit lower sha256_hex config limiter now dialect hs buckets ≡ (after, admitted base tenant)
    → (route lower config dialect hs ≡ some base)
      × (tenant ≡ tenant_of lower sha256_hex config hs)
      × (is_authorized tenant config.allowed_tenants ≡ true)
      × (rate_allows limiter now tenant buckets ≡ true)
unfolding admit
admit-admitted lower sha256_hex config limiter now dialect hs buckets after base tenant h =
    elim (Option-cases (route lower config dialect hs)) [
      | inl e ↦ ground arith
      | inr (b, e) ↦ ground (
        arith,
        check_rate-admitted limiter now b (tenant_of lower sha256_hex config hs) buckets after base
            tenant,
      )
    ]

-- A request that is refused for its route or its tenant takes nothing from any bucket.
pub admit-refused :
    (lower sha256_hex : Text → Text) (config : EngineConfig) (limiter : Option RateLimit) (now : ℕ)
    (dialect : Dialect) (hs : Headers) (buckets : Buckets)
    → (status (admit lower sha256_hex config limiter now dialect hs buckets).1 ≡ some 401)
      ⊎ (status (admit lower sha256_hex config limiter now dialect hs buckets).1 ≡ some 502)
    → (admit lower sha256_hex config limiter now dialect hs buckets).0 ≡ buckets
unfolding admit check_rate status
admit-refused lower sha256_hex config limiter now dialect hs buckets h = ground arith
