-- ===== src/Prelude/Int.antt =====
-- Signed integers over the native numbers, for the wire fields that may be negative.
use Prim.Native.Nat.{ℕ, zero, suc}
use mathlib.Core.Bool.{Bool, true, false}
use tunnel_service.Prelude.Tests.{◌==◌}

-- `negsuc n` is -(n + 1).
pub data ℤ : Type 0 where
  pos : ℕ → ℤ
  negsuc : ℕ → ℤ

-- An integer against a row id, which is a natural number.
abbrev pub is_id : ℤ → ℕ → Bool
is_id (pos m) n = m == n
is_id (negsuc m) n = false

abbrev pub is_negative : ℤ → Bool
is_negative (pos m) = false
is_negative (negsuc m) = true

-- The id that a negative integer stands for, `-z`, against a row id.
abbrev pub is_negated_id : ℤ → ℕ → Bool
is_negated_id (pos zero) n = n == zero
is_negated_id (pos (suc m)) n = false
is_negated_id (negsuc m) n = suc m == n

abbrev pub negate : ℕ → ℤ
negate zero = pos zero
negate (suc n) = negsuc n
