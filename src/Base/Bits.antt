-- ===== src/Base/Bits.antt =====
-- Exclusive or, digit by digit: the bound of its value.
use Prim.Native.Nat.{ℕ, zero, suc, ◌+◌, ◌*◌, ◌/◌, ◌%◌, ◌^◌, ◌≤◌, ◌<◌, bit_xor}
use Prim.Native.Nat.{digits, differ, bit_xor-bitwise}
use mathlib.Core.Path.{◌≡◌, refl}
use native.Mathlib.Nat.{le_refl, pow-suc}
use native.Mathlib.Omega.{arith}

xor_digits_fuel :
    (n m a b : ℕ) → a ≤ n → a ≤ m → digits (λ y. y) differ n a b ≡ digits (λ y. y) differ m a b
xor_digits_fuel zero zero a b p q = refl
xor_digits_fuel zero (suc m) zero b p q = refl
xor_digits_fuel zero (suc m) (suc a) b p q = absurd (omega arith)
xor_digits_fuel (suc n) zero zero b p q = refl
xor_digits_fuel (suc n) zero (suc a) b p q = absurd (omega arith)
xor_digits_fuel (suc n) (suc m) zero b p q = refl
xor_digits_fuel (suc n) (suc m) (suc a) b p q =
    rw (xor_digits_fuel n m (suc a / 2) (b / 2) (omega arith) (omega arith))

pub bit_xor_step : (a b : ℕ) → bit_xor a b ≡ bit_xor (a / 2) (b / 2) * 2 + differ (a % 2) (b % 2)
bit_xor_step zero b = simp bit_xor-bitwise (omega arith)
bit_xor_step (suc a) b =
    simp bit_xor-bitwise
      (omega (arith, xor_digits_fuel a (suc a / 2) (suc a / 2) (b / 2) (omega arith) (le_refl _)))

differ-le : (x y : ℕ) → x ≤ 1 → y ≤ 1 → differ x y ≤ 1
differ-le zero y p q = q
differ-le (suc x) zero p q = p
differ-le (suc x) (suc y) p q = differ-le x y (omega arith) (omega arith)

-- The exclusive or of two numbers of k bits has k bits.
pub bit_xor-lt : (k a b : ℕ) → a < 2 ^ k → b < 2 ^ k → bit_xor a b < 2 ^ k
bit_xor-lt zero zero b p q = simp bit_xor-bitwise q
bit_xor-lt zero (suc a) b p q = absurd (omega arith)
bit_xor-lt (suc k) a b p q = omega (
  arith,
  pow-suc 2 k,
  bit_xor_step a b,
  bit_xor-lt k (a / 2) (b / 2) (omega (arith, pow-suc 2 k)) (omega (arith, pow-suc 2 k)),
  differ-le (a % 2) (b % 2) (omega arith) (omega arith),
)
