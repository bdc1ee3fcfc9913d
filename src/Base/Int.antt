-- ===== src/Base/Int.antt =====
-- Signed integers over the native numbers, with their order.
use Prim.Native.Nat.{ℕ, compare, Ordering}

-- `negsuc n` is -(n + 1).
pub data ℤ : Type 0 where
  pos : ℕ → ℤ
  negsuc : ℕ → ℤ

abbrev pub compare_ℤ : ℤ → ℤ → Ordering
compare_ℤ (pos m) (pos n) = compare m n
compare_ℤ (pos m) (negsuc n) = Ordering.gt
compare_ℤ (negsuc m) (pos n) = Ordering.lt
compare_ℤ (negsuc m) (negsuc n) = compare n m
