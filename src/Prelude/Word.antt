-- ===== src/Prelude/Word.antt =====
-- `usize` on a 64-bit target.
use Prim.Native.Nat.{ℕ, ◌+◌, ◌*◌, ◌^◌, ◌≤◌, ◌<◌}
use mathlib.Core.Path.{◌≡◌}
use mathlib.Core.Option.{Option, none, some}
use native.Mathlib.Omega.{arith}
use wincode_dynamic.Prelude.Tests.{ltb, if◌then◌else◌}

abbrev pub usize_mod : ℕ
usize_mod = 2 ^ 64

-- `usize::checked_mul`
unfoldable pub checked_mul : ℕ → ℕ → Option ℕ
checked_mul a b = if ltb (a * b) usize_mod then some (a * b) else none

-- `usize::checked_add`
unfoldable pub checked_add : ℕ → ℕ → Option ℕ
checked_add a b = if ltb (a + b) usize_mod then some (a + b) else none

pub checked_mul-fits : (a b : ℕ) → a * b < usize_mod → checked_mul a b ≡ some (a * b)
unfolding checked_mul
checked_mul-fits a b h = ground arith

pub checked_mul-overflow : (a b : ℕ) → usize_mod ≤ a * b → checked_mul a b ≡ none
unfolding checked_mul
checked_mul-overflow a b h = ground arith

pub le-mul_pos : (n s : ℕ) → 0 < s → n ≤ n * s
le-mul_pos n s h = grind arith

pub checked_add-fits : (a b : ℕ) → a + b < usize_mod → checked_add a b ≡ some (a + b)
unfolding checked_add
checked_add-fits a b h = ground arith

pub checked_add-overflow : (a b : ℕ) → usize_mod ≤ a + b → checked_add a b ≡ none
unfolding checked_add
checked_add-overflow a b h = ground arith
