-- ===== src/Base/Ints.antt =====
-- Integers over the native numbers: a difference of two instants may be negative.
use Prim.Native.Nat.{ℕ, ◌-◌}
use zedspaces.Base.Tests.{leb, if◌then◌else◌}

pub data ℤ : Type 0 where
  pos : ℕ → ℤ
  negsuc : ℕ → ℤ

-- `a - b`
abbrev pub difference : ℕ → ℕ → ℤ
difference a b = if leb b a then pos (a - b) else negsuc (b - a - 1)
