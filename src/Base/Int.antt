-- ===== src/Base/Int.antt =====
-- The signed integers of requests: their sign and their range is all that the program tests.
use Prim.Native.Nat.{ℕ, suc}
use mathlib.Core.Bool.{Bool, false}
use home_kai.Base.Tests.{leb}

-- `negsuc n` is -(n + 1).
pub data ℤ : Type 0 where
  pos : ℕ → ℤ
  negsuc : ℕ → ℤ

abbrev pub to_ℕ : ℤ → ℕ
to_ℕ (pos n) = n
to_ℕ (negsuc n) = 0

-- 0 ≤ p ≤ 65535
abbrev pub is_port_or_zero : ℤ → Bool
is_port_or_zero (pos n) = leb n 65535
is_port_or_zero (negsuc n) = false

abbrev pub neg_part : ℤ → ℕ
neg_part (pos n) = 0
neg_part (negsuc n) = suc n
