-- ===== src/Base/Integers.antt =====
-- Integers over the native numbers, and their order.
use Prim.Native.Nat.{ℕ}
use mathlib.Core.Path.{◌≡◌, refl}
use mathlib.Core.Bool.{Bool, true, false}
use native.Mathlib.Omega.{arith}
use code_fixer.Base.Tests.{leb}

-- `negsuc n` is -(n + 1).
pub data ℤ : Type 0 where
  pos : ℕ → ℤ
  negsuc : ℕ → ℤ

abbrev pub at_most : ℤ → ℤ → Bool
at_most (pos m) (pos n) = leb m n
at_most (pos m) (negsuc n) = false
at_most (negsuc m) (pos n) = true
at_most (negsuc m) (negsuc n) = leb n m

pub at_most_self : (a : ℤ) → at_most a a ≡ true
at_most_self (pos m) = ground arith
at_most_self (negsuc m) = ground arith

pub at_most_trans : (a b c : ℤ) → at_most a b ≡ true → at_most b c ≡ true → at_most a c ≡ true
at_most_trans (pos m) (pos n) (pos k) h g = ground arith
at_most_trans (pos m) (pos n) (negsuc k) h g = absurd (ground arith)
at_most_trans (pos m) (negsuc n) c h g = absurd (ground arith)
at_most_trans (negsuc m) b (pos k) h g = refl
at_most_trans (negsuc m) (pos n) (negsuc k) h g = absurd (ground arith)
at_most_trans (negsuc m) (negsuc n) (negsuc k) h g = ground arith

pub at_most_total : (a b : ℤ) → at_most a b ≡ false → at_most b a ≡ true
at_most_total (pos m) (pos n) h = ground arith
at_most_total (pos m) (negsuc n) h = refl
at_most_total (negsuc m) (pos n) h = absurd (ground arith)
at_most_total (negsuc m) (negsuc n) h = ground arith
