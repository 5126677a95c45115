-- ===== src/Base/Int.antt =====
-- The results of C functions that return an `int`: `negsuc n` is -(n + 1).
use Prim.Native.Nat.{ℕ, zero, suc}
use mathlib.Core.Bool.{Bool, true, false}

pub data ℤ : Type 0 where
  pos : ℕ → ℤ
  negsuc : ℕ → ℤ

-- `rv < 0`
abbrev pub is_neg : ℤ → Bool
is_neg (pos _) = false
is_neg (negsuc _) = true

-- `rv == 0`
abbrev pub is_zero : ℤ → Bool
is_zero (pos zero) = true
is_zero (pos (suc _)) = false
is_zero (negsuc _) = false

-- `rv > 0`
abbrev pub is_pos : ℤ → Bool
is_pos (pos zero) = false
is_pos (pos (suc _)) = true
is_pos (negsuc _) = false

-- `rv == 1`
abbrev pub is_one : ℤ → Bool
is_one (pos zero) = false
is_one (pos (suc zero)) = true
is_one (pos (suc (suc _))) = false
is_one (negsuc _) = false
