-- ===== src/Prelude/Bits.antt =====
-- Masks, flags and shifts as arithmetic, for every width: the libraries have no such laws, and the
-- tactics take a call of `bit_and` or `bit_or` at variables for an unknown.
use Prim.Native.Nat.{
  ℕ, zero, suc, ◌+◌, ◌-◌, ◌*◌, ◌/◌, ◌%◌, ◌^◌, ◌≤◌, ◌<◌, min, max, bit_and, bit_or, digits,
  bit_and-bitwise, bit_or-bitwise,
}
use mathlib.Core.Path.{◌≡◌, refl, ap}
use native.Mathlib.Omega.{arith}
use native.Mathlib.Nat.{pow-suc, div-div-eq-div-mul, mod-eq_of_lt}

module _ (end : ℕ → ℕ) (digit : ℕ → ℕ → ℕ) where
  -- Two amounts of fuel that both reach the end of the first number give the same digits.
  digits_enough : (n m a b : ℕ) → a ≤ n → a ≤ m → digits end digit n a b ≡ digits end digit m a b
  digits_enough zero zero a b p q = refl
  digits_enough zero (suc m) zero b p q = refl
  digits_enough (suc n) zero zero b p q = refl
  digits_enough (suc n) (suc m) zero b p q = refl
  digits_enough zero m (suc a) b p q = absurd (omega arith)
  digits_enough (suc n) zero (suc a) b p q = absurd (omega arith)
  digits_enough (suc n) (suc m) (suc a) b p q =
      omega (arith, digits_enough n m (suc a / 2) (b / 2) (omega arith) (omega arith))

-- One equation for the lowest digit, with no fuel.
pub and_low : (a b : ℕ) → bit_and a b ≡ 2 * bit_and (a / 2) (b / 2) + min (a % 2) (b % 2)
and_low zero b = omega (arith, bit_and-bitwise 0 b, bit_and-bitwise 0 (b / 2))
and_low (suc a) b =
    let half = suc a / 2 in
    omega (
      arith,
      bit_and-bitwise (suc a) b,
      bit_and-bitwise half (b / 2),
      digits_enough (λ _. 0) min a half half (b / 2) (omega arith) (omega arith),
    )

pub or_low : (a b : ℕ) → bit_or a b ≡ 2 * bit_or (a / 2) (b / 2) + max (a % 2) (b % 2)
or_low zero b = omega (arith, bit_or-bitwise 0 b, bit_or-bitwise 0 (b / 2))
or_low (suc a) b =
    let half = suc a / 2 in
    omega (
      arith,
      bit_or-bitwise (suc a) b,
      bit_or-bitwise half (b / 2),
      digits_enough (λ y. y) max a half half (b / 2) (omega arith) (omega arith),
    )

and_zero_upto : (n a : ℕ) → a ≤ n → bit_and a 0 ≡ 0
and_zero_upto n zero h = refl
and_zero_upto zero (suc a) h = absurd (omega arith)
and_zero_upto (suc n) (suc a) h =
    omega (arith, and_low (suc a) 0, and_zero_upto n (suc a / 2) (omega arith))

pub bit_and-zero : (a : ℕ) → bit_and a 0 ≡ 0
bit_and-zero a = and_zero_upto a a (omega arith)

or_zero_upto : (n a : ℕ) → a ≤ n → bit_or a 0 ≡ a
or_zero_upto n zero h = refl
or_zero_upto zero (suc a) h = absurd (omega arith)
or_zero_upto (suc n) (suc a) h =
    omega (arith, or_low (suc a) 0, or_zero_upto n (suc a / 2) (omega arith))

two_pow-suc : (k : ℕ) → 2 ^ suc k ≡ 2 * 2 ^ k
two_pow-suc k = omega (arith, pow-suc 2 k)

pub two_pow-pos : (k : ℕ) → 0 < 2 ^ k
two_pow-pos zero = omega arith
two_pow-pos (suc k) = omega (arith, two_pow-suc k, two_pow-pos k)

double_shift : (h k : ℕ) → h * 2 ^ suc k ≡ 2 * (h * 2 ^ k)
double_shift h k = omega (arith, ap (λ (t : ℕ). h * t) (two_pow-suc k))

-- A high part and a low part of `k` bits, joined by `|`, are added.
pub bit_or_shifted : (k h l : ℕ) → l < 2 ^ k → bit_or (h * 2 ^ k) l ≡ h * 2 ^ k + l
bit_or_shifted zero h l fits = ground (arith, or_zero_upto h h (omega arith))
bit_or_shifted (suc k) h l fits = ground (
  arith,
  or_low (h * 2 ^ suc k) l,
  double_shift h k,
  two_pow-suc k,
  bit_or_shifted k h (l / 2) (omega (arith, two_pow-suc k)),
)

-- The low `k` bits of a number whose parts are given.
and_parts : (k h l : ℕ) → l < 2 ^ k → bit_and (h * 2 ^ k + l) (2 ^ k - 1) ≡ l
and_parts zero h l fits = ground (arith, bit_and-zero h)
and_parts (suc k) h l fits = ground (
  arith,
  and_low (h * 2 ^ suc k + l) (2 ^ suc k - 1),
  double_shift h k,
  two_pow-suc k,
  two_pow-pos k,
  and_parts k h (l / 2) (omega (arith, two_pow-suc k)),
)

-- A mask of the `k` low bits is the remainder by `2 ^ k`.
pub bit_and_low_bits : (k a : ℕ) → bit_and a (2 ^ k - 1) ≡ a % 2 ^ k
bit_and_low_bits k a = ground (arith, two_pow-pos k, and_parts k (a / 2 ^ k) (a % 2 ^ k))

-- A mask of one bit.
pub bit_and_flag : (k a : ℕ) → bit_and a (2 ^ k) ≡ a / 2 ^ k % 2 * 2 ^ k
bit_and_flag zero a = omega (arith, and_low a 1, bit_and-zero (a / 2))
bit_and_flag (suc k) a = ground (
  arith,
  and_low a (2 ^ suc k),
  two_pow-suc k,
  two_pow-pos k,
  bit_and_flag k (a / 2),
  div-div-eq-div-mul a 2 (2 ^ k),
  double_shift (a / 2 ^ suc k % 2) k,
)

-- A mask of `j` bits above the `k` low ones rounds down to a multiple of `2 ^ k`.
pub bit_and_high_bits :
    (k j a : ℕ) → a / 2 ^ k < 2 ^ j → bit_and a ((2 ^ j - 1) * 2 ^ k) ≡ a / 2 ^ k * 2 ^ k
bit_and_high_bits zero j a fits =
    let plain : (2 ^ j - 1) * 2 ^ 0 ≡ 2 ^ j - 1 = omega arith in
    let small : a < 2 ^ j = omega (arith, fits) in
    rw plain (omega (arith, bit_and_low_bits j a, mod-eq_of_lt small))
bit_and_high_bits (suc k) j a fits = ground (
  arith,
  and_low a ((2 ^ j - 1) * 2 ^ suc k),
  two_pow-suc k,
  two_pow-pos k,
  div-div-eq-div-mul a 2 (2 ^ k),
  bit_and_high_bits k j (a / 2),
  double_shift (2 ^ j - 1) k,
  double_shift (a / 2 ^ suc k) k,
)
