-- ===== src/Prelude/Int.antt =====
-- Integers over the native numbers, and the difference of two of these.
use Prim.Native.Nat.{ℕ, ◌-◌}
use parcus.Prelude.Tests.{leb, if◌then◌else◌}

pub data ℤ : Type 0 where
  pos : ℕ → ℤ
  negsuc : ℕ → ℤ

-- Python's `a - b` on numbers that are not negative.
abbrev pub minus : ℕ → ℕ → ℤ
minus a b = if leb b a then pos (a - b) else negsuc (b - a - 1)
