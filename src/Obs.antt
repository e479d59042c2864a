-- ===== src/Obs.antt =====
-- obs/: the metrics. An event of savings is recorded by a sink; a snapshot summarises what a sink
-- holds. Python's floats are a parameter: a division, and the rounding to four digits.
pub mod Totals
pub mod Store
pub mod Runs
pub mod Agree
pub mod Evals
pub mod Sink
use parcus.Prelude.{ℕ, ℤ, Bool, Option, List}
use parcus.Text.{Text}

pub record Floats (F : Type 0) : Type 0 where
  pub zero_float : F
  -- `a / b` for a positive `b`, and `round(x, 4)`
  pub divide : ℤ → ℕ → F
  pub round4 : F → F

pub record StageSummary (F : Type 0) : Type 0 where
  pub tokens_before : ℕ
  pub tokens_after : ℕ
  pub tokens_saved : ℤ
  pub reduction : F
  pub accuracy : Option F
  pub checked : ℕ

pub record TenantSummary (F : Type 0) : Type 0 where
  pub requests : ℕ
  pub tokens_before : ℕ
  pub tokens_after : ℕ
  pub tokens_saved : ℤ
  pub reduction : F

pub record EvalSummary (F : Type 0) : Type 0 where
  pub score : F
  pub passed : Bool

-- A snapshot without the eval gates, which only the store has.
pub record Snapshot (F : Type 0) : Type 0 where
  pub requests : ℕ
  pub cache_hits : ℕ
  pub cache_hit_rate : F
  pub tokens_before : ℕ
  pub tokens_after : ℕ
  pub tokens_saved : ℤ
  pub overall_ratio : F
  pub stages : List (Text × StageSummary F)
  pub by_tenant : List (Text × TenantSummary F)
