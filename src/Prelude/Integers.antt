-- ===== src/Prelude/Integers.antt =====
-- Signed numbers over the native ℕ, under the library's names.
use Prim.Native.Nat.{ℕ}

-- A signed number: `negsuc n` is -(n + 1).
pub data ℤ : Type 0 where
  pos : ℕ → ℤ
  negsuc : ℕ → ℤ
