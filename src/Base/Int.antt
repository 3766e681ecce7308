-- ===== src/Base/Int.antt =====
-- Go's int and int64, as far as they are compared, converted and scaled.
use Prim.Native.Nat.{ℕ, suc, ◌+◌, ◌-◌, ◌%◌, ◌^◌}
use mathlib.Core.Path.{◌≡◌}
use mathlib.Core.Bool.{Bool, true}
use native.Mathlib.Omega.{arith}
use vectorcore_mmsc.Base.Tests.{ltb, leb, ◌==◌, if◌then◌else◌}

-- `negsuc n` is -(n + 1).
pub data ℤ : Type 0 where
  pos : ℕ → ℤ
  negsuc : ℕ → ℤ

abbrev pub above : ℤ → ℕ
above (pos n) = n
above (negsuc n) = 0

abbrev pub below : ℤ → ℕ
below (pos n) = 0
below (negsuc n) = suc n

abbrev pub int_eq : ℤ → ℤ → Bool
int_eq x y = above x + below y == above y + below x

abbrev pub int_lt : ℤ → ℤ → Bool
int_lt x y = ltb (above x + below y) (above y + below x)

abbrev pub int_le : ℤ → ℤ → Bool
int_le x y = leb (above x + below y) (above y + below x)

-- byte(x): the low eight bits of the two's complement.
abbrev pub byte_of : ℤ → ℕ
byte_of (pos n) = n % 256
byte_of (negsuc n) = 255 - n % 256

-- The int64 of a product of positive numbers: its low 64 bits, read as two's complement.
abbrev pub int64_of : ℕ → ℤ
int64_of n = let low = n % 2 ^ 64 in if ltb low (2 ^ 63) then pos low else negsuc (2 ^ 64 - 1 - low)

pub int_eq→eq : (x y : ℤ) → int_eq x y ≡ true → x ≡ y
int_eq→eq (pos m) (pos n) h = ground arith
int_eq→eq (pos m) (negsuc n) h = ground arith
int_eq→eq (negsuc m) (pos n) h = ground arith
int_eq→eq (negsuc m) (negsuc n) h = ground arith

pub int_eq_self : (x : ℤ) → int_eq x x ≡ true
int_eq_self x = ground arith
