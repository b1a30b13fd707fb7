-- ===== src/Prelude/Int.antt =====
-- Signed integers over the native numbers, under the library's names.
use boost.Prelude.{ℕ, zero, suc}

-- `negsuc n` is -(n + 1).
pub data ℤ : Type 0 where
  pos : ℕ → ℤ
  negsuc : ℕ → ℤ

abbrev pub neg : ℕ → ℤ
neg zero = pos zero
neg (suc n) = negsuc n
