-- ===== src/Base/Shift.antt =====
-- `value << 7 | low`, for a low part of seven bits, is a sum, and `value & 0x7F` is a remainder.
use Prim.Native.Nat.{
  ℕ, zero, suc, ◌+◌, ◌*◌, ◌/◌, ◌%◌, ◌≤◌, ◌<◌, min, max, bit_and, bit_or, digits, bit_and-bitwise,
  bit_or-bitwise,
}
use mathlib.Core.Path.{◌≡◌, refl}
use native.Mathlib.Omega.{arith}

module _ (edge : ℕ → ℕ) (op : ℕ → ℕ → ℕ) where
  -- Fuel beyond the left number adds nothing.
  enough_digits : (k l a b : ℕ) → a ≤ k → a ≤ l → digits edge op k a b ≡ digits edge op l a b
  enough_digits zero zero a b p q = refl
  enough_digits zero (suc l) zero b p q = refl
  enough_digits zero (suc l) (suc a) b p q = absurd (omega arith)
  enough_digits (suc k) zero zero b p q = refl
  enough_digits (suc k) zero (suc a) b p q = absurd (omega arith)
  enough_digits (suc k) (suc l) zero b p q = refl
  enough_digits (suc k) (suc l) (suc a) b p q =
      omega (arith, enough_digits k l (suc a / 2) (b / 2) (omega arith) (omega arith))

zero-bit_or : (b : ℕ) → bit_or 0 b ≡ b
zero-bit_or b = bit_or-bitwise 0 b

bit_or-halves : (a b : ℕ) → bit_or a b ≡ bit_or (a / 2) (b / 2) * 2 + max (a % 2) (b % 2)
bit_or-halves zero b = omega (arith, zero-bit_or b, zero-bit_or (b / 2))
bit_or-halves (suc a) b = omega (
  arith,
  bit_or-bitwise (suc a) b,
  bit_or-bitwise (suc a / 2) (b / 2),
  enough_digits (λ y. y) max a (suc a / 2) (suc a / 2) (b / 2) (omega arith) (omega arith),
)

bit_or-zero_below : (n a : ℕ) → a ≤ n → bit_or a 0 ≡ a
bit_or-zero_below n zero h = refl
bit_or-zero_below zero (suc a) h = absurd (omega arith)
bit_or-zero_below (suc n) (suc a) h =
    omega (arith, bit_or-halves (suc a) 0, bit_or-zero_below n (suc a / 2) (omega arith))

bit_or-double : (q r : ℕ) → bit_or (2 * q) r ≡ 2 * bit_or q (r / 2) + r % 2
bit_or-double q r = rw bit_or-halves (rw (halves q) (omega arith))
  where
    halves : (n : ℕ) → 2 * n / 2 ≡ n
    halves n = omega arith

bit_or-quarter : (q r : ℕ) → bit_or (4 * q) r ≡ 4 * bit_or q (r / 4) + r % 4
bit_or-quarter q r =
    rw (regroup q) (omega (arith, bit_or-double (2 * q) r, bit_or-double q (r / 2), thirds r))
  where
    regroup : (n : ℕ) → 4 * n ≡ 2 * (2 * n)
    regroup n = omega arith

    thirds : (n : ℕ) → bit_or q (n / 2 / 2) ≡ bit_or q (n / 4)
    thirds n = λ i. bit_or q (quarters n i)
      where
        quarters : (m : ℕ) → m / 2 / 2 ≡ m / 4
        quarters m = omega arith

-- The groups of seven bits of a Uintvar-integer.
pub bit_or_seven : (q r : ℕ) → r < 128 → bit_or (q * 128) r ≡ q * 128 + r
bit_or_seven q r h = rw (regroup q) (
    rw (bit_or-quarter (4 * (4 * (2 * q))) r) (
      rw (bit_or-quarter (4 * (2 * q)) (r / 4)) (
        rw (bit_or-quarter (2 * q) (r / 4 / 4)) (
          rw (bit_or-double q (r / 4 / 4 / 4))
            (rw (last r h) (rw (bit_or-zero_below q q (omega arith)) (omega arith)))))))
  where
    regroup : (n : ℕ) → n * 128 ≡ 4 * (4 * (4 * (2 * n)))
    regroup n = omega arith

    last : (n : ℕ) → n < 128 → n / 4 / 4 / 4 / 2 ≡ 0
    last n b = omega arith

zero-bit_and : (b : ℕ) → bit_and 0 b ≡ 0
zero-bit_and b = bit_and-bitwise 0 b

bit_and-halves : (a b : ℕ) → bit_and a b ≡ bit_and (a / 2) (b / 2) * 2 + min (a % 2) (b % 2)
bit_and-halves zero b = omega (arith, zero-bit_and b, zero-bit_and (b / 2))
bit_and-halves (suc a) b = omega (
  arith,
  bit_and-bitwise (suc a) b,
  bit_and-bitwise (suc a / 2) (b / 2),
  enough_digits (λ y. 0) min a (suc a / 2) (suc a / 2) (b / 2) (omega arith) (omega arith),
)

bit_and-zero_below : (n a : ℕ) → a ≤ n → bit_and a 0 ≡ 0
bit_and-zero_below n zero h = refl
bit_and-zero_below zero (suc a) h = absurd (omega arith)
bit_and-zero_below (suc n) (suc a) h =
    omega (arith, bit_and-halves (suc a) 0, bit_and-zero_below n (suc a / 2) (omega arith))

bit_and-three : (a : ℕ) → bit_and a 3 ≡ a % 4
bit_and-three a = omega (
  arith,
  bit_and-halves a 3,
  bit_and-halves (a / 2) 1,
  bit_and-zero_below (a / 2 / 2) (a / 2 / 2),
)

bit_and-fifteen : (a : ℕ) → bit_and a 15 ≡ a % 16
bit_and-fifteen a =
    omega (arith, bit_and-halves a 15, bit_and-halves (a / 2) 7, bit_and-three (a / 2 / 2))

bit_and-sixty_three : (a : ℕ) → bit_and a 63 ≡ a % 64
bit_and-sixty_three a =
    omega (arith, bit_and-halves a 63, bit_and-halves (a / 2) 31, bit_and-fifteen (a / 2 / 2))

pub bit_and_seven : (a : ℕ) → bit_and a 0x7F ≡ a % 128
bit_and_seven a = omega (arith, bit_and-halves a 127, bit_and-sixty_three (a / 2))
