-- ===== src/Base/Integers.antt =====
-- JavaScript's whole numbers, where they may fall below zero: the library's integers, over the
-- native numbers.
use Prim.Native.Nat.{ℕ, zero, suc, ◌+◌, ◌-◌}
use mathlib.Core.Bool.{Bool, false}
use oksai_cc_api_server.Base.Tests.{ltb}

-- `negsuc n` is `-(n + 1)`.
pub data ℤ : Type 0 where
  pos negsuc : ℕ → ℤ

-- `x + 1` and `x - 1`
abbrev pub increment : ℤ → ℤ
increment (pos n) = pos (suc n)
increment (negsuc zero) = pos 0
increment (negsuc (suc n)) = negsuc n

abbrev pub decrement : ℤ → ℤ
decrement (pos zero) = negsuc 0
decrement (pos (suc n)) = pos n
decrement (negsuc n) = negsuc (suc n)

-- `x > m`
abbrev pub exceeds : ℤ → ℕ → Bool
exceeds (pos n) m = ltb m n
exceeds (negsuc n) m = false

-- `Math.max(0, m - x)`
abbrev pub left_of : ℕ → ℤ → ℕ
left_of m (pos n) = m - n
left_of m (negsuc n) = m + suc n
