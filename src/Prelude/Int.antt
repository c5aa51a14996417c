-- ===== src/Prelude/Int.antt =====
-- Signed integers over the native numbers, and the range of an integer type.
use Prim.Native.Nat.{ℕ, ◌<◌}

-- `negsuc n` is -(n + 1).
pub data ℤ : Type 0 where
  pos : ℕ → ℤ
  negsuc : ℕ → ℤ

-- The range -w … w - 1 of a signed integer type.
abbrev pub IsSigned : ℕ → ℤ → Type 0
IsSigned w (pos n) = n < w
IsSigned w (negsuc n) = n < w
