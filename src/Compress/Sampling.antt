-- ===== src/Compress/Sampling.antt =====
-- compress/sampling.py: on which calls a pass checks its own output. The rate, a float between 0
-- and 1 in the source, is a fraction here.
use parcus.Prelude.{
  ℕ, zero, suc, ◌+◌, ◌*◌, ◌≤◌, ◌<◌, Bool, true, false, inl, inr, Bool-cases, min, ltb, ltb→lt,
  ltb→le, arith, if◌then◌else◌,
}

pub record VerifySampler : Type 0 where
  -- the rate is rate_num / rate_den
  pub rate_num : ℕ
  pub rate_den : ℕ
  pub calls : ℕ
  pub verified : ℕ

-- `min(1.0, max(0.0, rate))`, for a rate that is no negative fraction.
unfoldable pub new_sampler : ℕ → ℕ → VerifySampler
new_sampler num den = record { rate_num = min den num; rate_den = den; calls = 0; verified = 0 }

unfoldable pub should_verify : VerifySampler → VerifySampler × Bool
should_verify s =
    if ltb (s.verified * s.rate_den) ((s.calls + 1) * s.rate_num)
    then (record s { calls = s.calls + 1; verified = s.verified + 1 }, true)
    else (record s { calls = s.calls + 1 }, false)

-- The verified calls are the rate's share of all calls, rounded up.
pub record IsFair (s : VerifySampler) : Type 0 where
  pub positive : 0 < s.rate_den
  pub clamped : s.rate_num ≤ s.rate_den
  pub enough : s.calls * s.rate_num ≤ s.verified * s.rate_den
  pub frugal : s.verified * s.rate_den < s.calls * s.rate_num + s.rate_den

-- A run of `n` calls.
unfoldable pub run : ℕ → VerifySampler → VerifySampler
run zero s = s
run (suc n) s = run n (should_verify s).0

new_sampler-IsFair : (num den : ℕ) → 0 < den → IsFair (new_sampler num den)
unfolding new_sampler
new_sampler-IsFair num den h = ground arith

should_verify-IsFair : (s : VerifySampler) → IsFair s → IsFair (should_verify s).0
unfolding should_verify
should_verify-IsFair s h =
    elim (Bool-cases (ltb (s.verified * s.rate_den) ((s.calls + 1) * s.rate_num))) [
      | inl e ↦
          let lt = ltb→lt _ _ e in
          rw e (record {
            positive = h.positive;
            clamped = h.clamped;
            enough = omega (arith, h.enough, h.clamped, lt);
            frugal = omega (arith, h.frugal, lt);
          })
      | inr e ↦
          let le = ltb→le _ _ e in
          rw e (record {
            positive = h.positive;
            clamped = h.clamped;
            enough = omega (arith, le);
            frugal = omega (arith, h.frugal);
          })
    ]

run-IsFair : (n : ℕ) (s : VerifySampler) → IsFair s → IsFair (run n s)
unfolding run
run-IsFair zero s h = h
run-IsFair (suc n) s h = run-IsFair n (should_verify s).0 (should_verify-IsFair s h)

-- After any number of calls of a new sampler the verified calls are the clamped rate times the
-- calls, rounded up to a whole number: at least the rate's share, and less than one above it.
pub new_sampler-run-IsFair : (n num den : ℕ) → 0 < den → IsFair (run n (new_sampler num den))
new_sampler-run-IsFair n num den h = run-IsFair n _ (new_sampler-IsFair num den h)
