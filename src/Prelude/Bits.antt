-- ===== src/Prelude/Bits.antt =====
-- `|` on numbers whose ones do not meet is a sum.
use Prim.Native.Nat.{
  ℕ, zero, suc, ◌+◌, ◌*◌, ◌/◌, ◌%◌, ◌^◌, ◌≤◌, ◌<◌, max, bit_or, digits, bit_or-bitwise,
}
use mathlib.Core.Path.{◌≡◌, refl, ap}
use native.Mathlib.Omega.{arith}
use native.Mathlib.Nat.{pow-suc}

abbrev or_digits : ℕ → ℕ → ℕ → ℕ
or_digits n a b = digits (λ y. y) max n a b

or_digits_fuel : (n m a b : ℕ) → a ≤ n → a ≤ m → or_digits n a b ≡ or_digits m a b
or_digits_fuel zero zero a b p q = refl
or_digits_fuel zero (suc m) zero b p q = refl
or_digits_fuel zero (suc m) (suc a) b p q = absurd (omega arith)
or_digits_fuel (suc n) zero zero b p q = refl
or_digits_fuel (suc n) zero (suc a) b p q = absurd (omega arith)
or_digits_fuel (suc n) (suc m) zero b p q = refl
or_digits_fuel (suc n) (suc m) (suc a) b p q =
    omega (arith, or_digits_fuel n m (suc a / 2) (b / 2) (omega arith) (omega arith))

zero-bit_or : (b : ℕ) → bit_or 0 b ≡ b
zero-bit_or b = bit_or-bitwise 0 b

-- The lowest digit of `a | b`.
bit_or_step : (a b : ℕ) → bit_or a b ≡ bit_or (a / 2) (b / 2) * 2 + max (a % 2) (b % 2)
bit_or_step zero b = omega (arith, zero-bit_or b, zero-bit_or (b / 2))
bit_or_step (suc a) b = omega (
  arith,
  bit_or-bitwise (suc a) b,
  bit_or-bitwise (suc a / 2) (b / 2),
  or_digits_fuel a (suc a / 2) (suc a / 2) (b / 2) (omega arith) (omega arith),
)

bit_or-zero_fuel : (n a : ℕ) → a ≤ n → bit_or a 0 ≡ a
bit_or-zero_fuel n zero h = refl
bit_or-zero_fuel zero (suc a) h = absurd (omega arith)
bit_or-zero_fuel (suc n) (suc a) h =
    omega (arith, bit_or_step (suc a) 0, bit_or-zero_fuel n (suc a / 2) (omega arith))

pub bit_or-zero : (a : ℕ) → bit_or a 0 ≡ a
bit_or-zero a = bit_or-zero_fuel a a (omega arith)

double_shift : (h k : ℕ) → h * 2 ^ suc k ≡ 2 * (h * 2 ^ k)
double_shift h k = omega (arith, ap (λ (t : ℕ). h * t) (pow-suc 2 k))

-- `l | h << k` where `l` has no bit at `k` or above.
pub bit_or_above : (k h l : ℕ) → l < 2 ^ k → bit_or l (h * 2 ^ k) ≡ l + h * 2 ^ k
bit_or_above zero h zero fits = omega (arith, zero-bit_or (h * 1))
bit_or_above zero h (suc l) fits = absurd (omega arith)
bit_or_above (suc k) h l fits = omega (
  arith,
  bit_or_step l (h * 2 ^ suc k),
  double_shift h k,
  pow-suc 2 k,
  bit_or_above k h (l / 2) (omega (arith, pow-suc 2 k)),
  ap (λ (t : ℕ). bit_or (l / 2) t) half_shift,
)
  where
    half_shift : h * 2 ^ suc k / 2 ≡ h * 2 ^ k
    half_shift = omega (arith, double_shift h k)

-- `h << k | l` where `l` has no bit at `k` or above.
pub bit_or_below : (k h l : ℕ) → l < 2 ^ k → bit_or (h * 2 ^ k) l ≡ h * 2 ^ k + l
bit_or_below zero h zero fits = omega (arith, bit_or-zero (h * 1))
bit_or_below zero h (suc l) fits = absurd (omega arith)
bit_or_below (suc k) h l fits = omega (
  arith,
  bit_or_step (h * 2 ^ suc k) l,
  double_shift h k,
  pow-suc 2 k,
  bit_or_below k h (l / 2) (omega (arith, pow-suc 2 k)),
  ap (λ (t : ℕ). bit_or t (l / 2)) half_shift,
)
  where
    half_shift : h * 2 ^ suc k / 2 ≡ h * 2 ^ k
    half_shift = omega (arith, double_shift h k)

-- `|` stays within the width of its arguments.
pub bit_or-lt : (k a b : ℕ) → a < 2 ^ k → b < 2 ^ k → bit_or a b < 2 ^ k
bit_or-lt zero zero b ha hb = omega (arith, zero-bit_or b)
bit_or-lt zero (suc a) b ha hb = absurd (omega arith)
bit_or-lt (suc k) a b ha hb = omega (
  arith,
  bit_or_step a b,
  pow-suc 2 k,
  bit_or-lt k (a / 2) (b / 2) (omega (arith, pow-suc 2 k)) (omega (arith, pow-suc 2 k)),
)
