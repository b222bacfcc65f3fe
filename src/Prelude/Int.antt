-- ===== src/Prelude/Int.antt =====
-- Integers over the native numbers, and the tests the code makes on them.
use kerdoos.Prelude.Tests.{leb, ltb}
use Prim.Native.Nat.{ℕ}
use mathlib.Core.Bool.{Bool, true, false}

pub data ℤ : Type 0 where
  pos negsuc : ℕ → ℤ

-- `0 <= i <= n`
abbrev pub within : ℕ → ℤ → Bool
within n (pos i) = leb i n
within n (negsuc i) = false

-- `i > 0`
abbrev pub is_positive : ℤ → Bool
is_positive (pos i) = ltb 0 i
is_positive (negsuc i) = false

-- `i >= 0`
abbrev pub is_natural : ℤ → Bool
is_natural (pos i) = true
is_natural (negsuc i) = false
