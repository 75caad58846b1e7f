-- ===== src/Prelude/Integers.antt =====
-- The integers, over the native numbers: the counts of the code that begin at -1.
use Prim.Native.Nat.{ℕ, suc, ◌+◌, ◌-◌}
use wanchain_js_sdk.Prelude.Tests.{ltb, if◌then◌else◌}

-- `negsuc n` is -(n + 1)
pub data ℤ : Type 0 where
  pos negsuc : ℕ → ℤ

infixl 65 ◌+ℤ◌
abbrev pub ◌+ℤ◌ : ℤ → ℤ → ℤ
pos m +ℤ pos n = pos (m + n)
pos m +ℤ negsuc n = if ltb n m then pos (m - suc n) else negsuc (n - m)
negsuc m +ℤ pos n = if ltb m n then pos (n - suc m) else negsuc (m - n)
negsuc m +ℤ negsuc n = negsuc (suc (m + n))
