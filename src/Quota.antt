-- ===== src/Quota.antt =====
-- quota.py: a token bucket for each tenant. The floats of the source are fixed-point numbers here:
-- a token is `unit` parts, times are ticks of the monotonic clock, and the bucket refills by
-- `refill` parts a tick. Python's clock is an argument of `check`.
pub mod Bounds
use parcus.Prelude.{
  lookup, insert, ℕ, zero, suc, ◌+◌, ◌-◌, ◌*◌, ◌/◌, Bool, true, false, Option, none, some, List, [],
  ◌∷◌, leb, ltb, min, ◌==◌, nat_eq, list_eq, if◌then◌else◌,
}
use parcus.Text.{Text}

pub record RateLimit : Type 0 where
  -- the parts of one token
  pub unit : ℕ
  pub capacity : ℕ
  pub refill : ℕ

-- `per_minute`, for a clock of `ticks` ticks a second and whole numbers of requests: a token is
-- `60 * ticks` parts, so that `rate / 60` tokens a second are `rate` parts a tick.
abbrev pub per_minute : ℕ → ℕ → ℕ → RateLimit
per_minute ticks rate burst = record {
  unit = 60 * ticks;
  capacity = (if ltb 0 burst then burst else rate) * (60 * ticks);
  refill = rate;
}

pub record RateDecision : Type 0 where
  pub allowed : Bool
  -- ticks until one token accrues, rounded up
  pub retry_after : ℕ

pub record Bucket : Type 0 where
  pub tokens : ℕ
  pub updated : ℕ

abbrev pub Buckets : Type 0
Buckets = List (Text × Bucket)

-- `math.ceil(a / b)` for a positive `b`.
abbrev ceil_div : ℕ → ℕ → ℕ
ceil_div a b = (a + b - 1) / b

module _ (limit : RateLimit) where
  -- The bucket after the refill; `max(0.0, now - updated)` is the truncated subtraction.
  unfoldable pub refilled : ℕ → Bucket → Bucket
  refilled now b = record {
    tokens = min limit.capacity (b.tokens + (now - b.updated) * limit.refill);
    updated = now;
  }

  unfoldable pub consume : Bucket → Bucket × RateDecision
  consume b =
      if leb limit.unit b.tokens
      then (record b { tokens = b.tokens - limit.unit }, record { allowed = true; retry_after = 0 })
      else (
        b,
        record {
          allowed = false;
          retry_after =
              if ltb 0 limit.refill then ceil_div (limit.unit - b.tokens) limit.refill else 0;
        },
      )

  unfoldable pub start : ℕ → Option Bucket → Bucket
  start now none = record { tokens = limit.capacity; updated = now }
  start now (some b) = b

  unfoldable pub check : ℕ → Text → Buckets → Buckets × RateDecision
  unfolding refilled consume start lookup insert
  check now key buckets =
      let (b, decision) = consume (refilled now (start now (lookup key buckets))) in
      (insert key b buckets, decision)
