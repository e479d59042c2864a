-- ===== src/Settings/Rates.antt =====
-- config/settings.py and quota.py: the rate limit of the settings at work.
use native.Mathlib.Nat.{mul-le-mul_right, mul-lt-mul_of_pos_right}
use parcus.Prelude.{
  ◌&&◌, lookup, ℕ, ◌*◌, ◌≤◌, ◌<◌, ◌≡◌, refl, sym, ℤ, pos, negsuc, true, false, none, some, leb, ltb,
  ◌==◌, arith, Bool-cases, inl, inr, ◌⊎◌, nat_eq, list_eq, if◌then◌else◌,
}
use parcus.Text.{Text}
use parcus.Quota.{RateLimit, Bucket, Buckets, check, consume, refilled, start}
use parcus.Settings.{Settings, one, rate_limit}

-- The burst, in millionths of a request: the rate of a minute where none is set.
abbrev pub burst_of : ℕ → ℤ → ℕ
burst_of rate (negsuc n) = rate
burst_of rate (pos burst) = if ltb 0 burst then burst else rate

-- What a bucket of `limit` holds at a call.
consume-allowed :
    (limit : RateLimit) (b : Bucket) → (consume limit b).1.allowed ≡ leb limit.unit b.tokens
unfolding consume
consume-allowed limit b = ground arith

refilled-le :
    (limit : RateLimit) (now : ℕ) (b : Bucket) → (refilled limit now b).tokens ≤ limit.capacity
unfolding refilled
refilled-le limit now b = omega arith

check-starved :
    (limit : RateLimit) (now : ℕ) (key : Text) (buckets : Buckets)
    → limit.capacity < limit.unit
    → (check limit now key buckets).1.allowed ≡ false
unfolding check
check-starved limit now key buckets h =
    let b = start limit now (lookup key buckets) in
    rw (consume-allowed limit (refilled limit now b)) (ground (arith, refilled-le limit now b))

check_new :
    (limit : RateLimit) (now : ℕ) (key : Text) (buckets : Buckets)
    → limit.unit ≤ limit.capacity
    → lookup key buckets ≡ none
    → (check limit now key buckets).1.allowed ≡ true
unfolding check refilled start
check_new limit now key buckets h e =
    let b = start limit now (lookup key buckets) in
    let full : limit.unit ≤ (refilled limit now b).tokens = rw e (omega (arith, h)) in
    rw (consume-allowed limit (refilled limit now b)) (ground (arith, full))

below : (m b n : ℕ) → 0 < n → b < m → b * n < m * n
below m b n z h = mul-lt-mul_of_pos_right h z

sign : (z : ℤ) → ((n : ℕ) × (z ≡ pos n)) ⊎ ((n : ℕ) × (z ≡ negsuc n))
sign (pos n) = inl (n, refl)
sign (negsuc n) = inr (n, refl)

rate_limit-units :
    (ticks rate : ℕ) (s : Settings) (limit : RateLimit)
    → s.rate_limit_per_minute ≡ pos rate
    → rate_limit ticks s ≡ some limit
    → (limit.unit ≡ one * (60 * ticks))
      × (limit.capacity ≡ burst_of rate s.rate_limit_burst * (60 * ticks))
unfolding rate_limit
rate_limit-units ticks rate s limit r h = elim (Bool-cases (rate == 0)) [
  | inl e ↦ absurd (ground arith)
  | inr e ↦ elim (sign s.rate_limit_burst) [
    | inl (n, b) ↦ let q = rw (r, e, b, rate_limit) at h in rw b (cc q, cc q)
    | inr (n, b) ↦ let q = rw (r, e, b, rate_limit) at h in rw b (cc q, cc q)
  ]
]

-- A rate limit of the settings lets a new tenant's first call pass exactly if its burst, or its rate
-- where no burst is set, is a whole request. If it is less, as with half a request a minute and no
-- burst set, no call of any tenant is allowed at any later time either, whatever the buckets hold.
pub rate_limit-allows :
    (ticks rate : ℕ) (s : Settings) (limit : RateLimit)
    → 0 < ticks
    → s.rate_limit_per_minute ≡ pos rate
    → rate_limit ticks s ≡ some limit
    → (now later : ℕ) (key other : Text) (buckets changed : Buckets) → lookup key buckets ≡ none
    → ((check limit now key buckets).1.allowed ≡ leb one (burst_of rate s.rate_limit_burst))
      × (((check limit later other changed).1.allowed && ltb (burst_of rate s.rate_limit_burst) one)
          ≡ false)
unfolding rate_limit
rate_limit-allows ticks rate s limit t r h now later key other buckets changed new =
    let (u, c) = rate_limit-units ticks rate s limit r h in
    let burst = burst_of rate s.rate_limit_burst in
    elim (Bool-cases (leb one burst)) [
      | inl whole ↦
          let fits =
            check_new limit now key buckets
              (rw (u, c) (mul-le-mul_right (60 * ticks) (ground arith))) new in
          (rw (fits, whole) refl, ground arith)
      | inr part ↦
          let starved : limit.capacity < limit.unit =
            rw (u, c) (below one burst (60 * ticks) (omega (arith, t)) (ground arith)) in
          (
            rw (check-starved limit now key buckets starved) (sym part),
            rw (check-starved limit later other changed starved) refl,
          )
    ]
