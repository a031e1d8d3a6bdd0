-- ===== src/Base/Int.antt =====
-- C ints that may be negative, over the native numbers. `negsuc n` is -(n + 1).
use Prim.Native.Nat.{ℕ}
use mathlib.Core.Bool.{Bool, true, false}
use premium.Base.Tests.{leb}

pub data ℤ : Type 0 where
  pos : ℕ → ℤ
  negsuc : ℕ → ℤ

-- `n >= k` for a counter `n`, which is never negative.
abbrev pub reaches : ℕ → ℤ → Bool
reaches n (pos k) = leb k n
reaches n (negsuc k) = true

-- `k < 0`
abbrev pub is_negative : ℤ → Bool
is_negative (pos k) = false
is_negative (negsuc k) = true
