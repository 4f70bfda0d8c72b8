-- ===== src/Base/Bits.antt =====
-- The bit operations by their lowest digit, and the masks and fields that the code builds with
-- them, as arithmetic.
use Prim.Native.Nat.{
  ℕ, zero, suc, ◌+◌, ◌-◌, ◌*◌, ◌/◌, ◌%◌, ◌^◌, ◌≤◌, ◌<◌, min, max, bit_and, bit_or, bit_xor, differ,
  digits, bitwise, bit_and-bitwise, bit_or-bitwise, bit_xor-bitwise,
}
use mathlib.Core.Path.{◌≡◌, refl, ap, sym, ◌∙◌}
use native.Mathlib.Nat.{
  mod-eq_of_lt, div-lt_iff_lt-mul, pow-suc, one-le-pow, div-div-eq-div-mul, mul_comm,
}
use native.Mathlib.Omega.{arith}

-- More fuel than digits changes nothing.
module _ (z : ℕ → ℕ) (f : ℕ → ℕ → ℕ) where
  fuel_irrelevant : (n m a b : ℕ) → a ≤ n → a ≤ m → digits z f n a b ≡ digits z f m a b
  fuel_irrelevant zero m (suc a) b p q = absurd (omega arith)
  fuel_irrelevant (suc n) zero (suc a) b p q = absurd (omega arith)
  fuel_irrelevant (suc n) (suc m) (suc a) b p q =
      rw (fuel_irrelevant n m (suc a / 2) (b / 2) (omega arith) (omega arith))
  fuel_irrelevant zero zero zero b p q = refl
  fuel_irrelevant zero (suc m) zero b p q = refl
  fuel_irrelevant (suc n) zero zero b p q = refl
  fuel_irrelevant (suc n) (suc m) zero b p q = refl

  lowest_digit :
      (a b : ℕ)
      → bitwise z f (suc a) b ≡ bitwise z f (suc a / 2) (b / 2) * 2 + f (suc a % 2) (b % 2)
  lowest_digit a b =
      ap (λ (t : ℕ). t * 2 + f (suc a % 2) (b % 2))
        (fuel_irrelevant a (suc a / 2) (suc a / 2) (b / 2) (omega arith) (omega arith))

pub bit_and_digit : (a b : ℕ) → bit_and a b ≡ bit_and (a / 2) (b / 2) * 2 + min (a % 2) (b % 2)
bit_and_digit zero b = simp bit_and-bitwise (omega arith)
bit_and_digit (suc a) b = simp bit_and-bitwise (lowest_digit (λ c. 0) min a b)

pub bit_or_digit : (a b : ℕ) → bit_or a b ≡ bit_or (a / 2) (b / 2) * 2 + max (a % 2) (b % 2)
bit_or_digit zero b = simp bit_or-bitwise (omega arith)
bit_or_digit (suc a) b = simp bit_or-bitwise (lowest_digit (λ c. c) max a b)

pub bit_xor_digit : (a b : ℕ) → bit_xor a b ≡ bit_xor (a / 2) (b / 2) * 2 + differ (a % 2) (b % 2)
bit_xor_digit zero b = simp bit_xor-bitwise (omega arith)
bit_xor_digit (suc a) b = simp bit_xor-bitwise (lowest_digit (λ c. c) differ a b)

zero-bit_or : (n : ℕ) → bit_or 0 n ≡ n
zero-bit_or n = bit_or-bitwise 0 n

pub zero-bit_and : (n : ℕ) → bit_and 0 n ≡ 0
zero-bit_and n = bit_and-bitwise 0 n

zero-bit_xor : (n : ℕ) → bit_xor 0 n ≡ n
zero-bit_xor n = bit_xor-bitwise 0 n

-- By strong induction, in the form of a bound that falls.
bit_or-zero_below : (n a : ℕ) → a ≤ n → bit_or a 0 ≡ a
bit_or-zero_below n zero h = refl
bit_or-zero_below zero (suc a) h = absurd (omega arith)
bit_or-zero_below (suc n) (suc a) h =
    omega (arith, bit_or_digit (suc a) 0, bit_or-zero_below n (suc a / 2) (omega arith))

pub bit_or-zero : (a : ℕ) → bit_or a 0 ≡ a
bit_or-zero a = bit_or-zero_below a a (omega arith)

bit_and-zero_below : (n a : ℕ) → a ≤ n → bit_and a 0 ≡ 0
bit_and-zero_below n zero h = refl
bit_and-zero_below zero (suc a) h = absurd (omega arith)
bit_and-zero_below (suc n) (suc a) h =
    omega (arith, bit_and_digit (suc a) 0, bit_and-zero_below n (suc a / 2) (omega arith))

pub bit_and-zero : (a : ℕ) → bit_and a 0 ≡ 0
bit_and-zero a = bit_and-zero_below a a (omega arith)

differ_zero : (a : ℕ) → a < 2 → differ a 0 ≡ a
differ_zero zero h = refl
differ_zero (suc a) h = refl

differ_one : (a : ℕ) → a < 2 → differ a 1 ≡ 1 - a
differ_one zero h = refl
differ_one (suc zero) h = refl
differ_one (suc (suc a)) h = absurd (omega arith)

bit_xor-zero_below : (n a : ℕ) → a ≤ n → bit_xor a 0 ≡ a
bit_xor-zero_below n zero h = refl
bit_xor-zero_below zero (suc a) h = absurd (omega arith)
bit_xor-zero_below (suc n) (suc a) h =
    ground
      (arith, bit_xor_digit (suc a) 0, bit_xor-zero_below n (suc a / 2), differ_zero (suc a % 2))

pub bit_xor-zero : (a : ℕ) → bit_xor a 0 ≡ a
bit_xor-zero a = bit_xor-zero_below a a (omega arith)

pub double_power : (q k : ℕ) → q * 2 ^ suc k ≡ 2 * (q * 2 ^ k)
double_power q k = omega (arith, ap (λ (t : ℕ). q * t) (pow-suc 2 k))

pub div_power : (a k : ℕ) → a / 2 ^ suc k ≡ a / 2 / 2 ^ k
div_power a k = rw (pow-suc 2 k, mul_comm (2 ^ k) 2, ← div-div-eq-div-mul a 2 (2 ^ k))

pub mod_power : (a k : ℕ) → a % 2 ^ suc k ≡ 2 * (a / 2 % 2 ^ k) + a % 2
mod_power a k = omega (
  arith,
  pow-suc 2 k,
  div_power a k,
  ap (λ (t : ℕ). 2 ^ suc k * t) (div_power a k),
  ap (λ (t : ℕ). t * (a / 2 / 2 ^ k)) (pow-suc 2 k),
)

-- A value shifted left by `k`, joined with one of `k` bits.
pub bit_or_field : (k q r : ℕ) → r < 2 ^ k → bit_or (q * 2 ^ k) r ≡ q * 2 ^ k + r
bit_or_field zero q r h = ground (arith, bit_or-zero q)
bit_or_field (suc k) q r h =
    ground (
      arith,
      bit_or_digit (q * 2 ^ suc k) r,
      double_power q k,
      bit_or_field k q (r / 2),
      pow-suc 2 k,
    )

-- The same, with the low field first.
pub bit_or_field_low : (k q r : ℕ) → r < 2 ^ k → bit_or r (q * 2 ^ k) ≡ q * 2 ^ k + r
bit_or_field_low zero q r h = ground (arith, zero-bit_or q)
bit_or_field_low (suc k) q r h = ground (
  arith,
  bit_or_digit r (q * 2 ^ suc k),
  double_power q k,
  bit_or_field_low k q (r / 2),
  pow-suc 2 k,
)

-- A mask of the low `k` bits.
pub bit_and_low : (k a : ℕ) → bit_and a (2 ^ k - 1) ≡ a % 2 ^ k
bit_and_low zero a = omega (arith, bit_and-zero a)
bit_and_low (suc k) a = ground (
  arith,
  bit_and_digit a (2 ^ suc k - 1),
  pow-suc 2 k,
  one-le-pow k 2,
  mod_power a k,
  bit_and_low k (a / 2),
)

-- A mask of the `j` bits above the low `k`.
pub bit_and_high : (k j a : ℕ) → bit_and a ((2 ^ j - 1) * 2 ^ k) ≡ a / 2 ^ k % 2 ^ j * 2 ^ k
bit_and_high zero j a = ground (arith, bit_and_low j a)
bit_and_high (suc k) j a = ground (
  arith,
  bit_and_digit a ((2 ^ j - 1) * 2 ^ suc k),
  double_power (2 ^ j - 1) k,
  double_power (a / 2 / 2 ^ k % 2 ^ j) k,
  div_power a k,
  bit_and_high k j (a / 2),
)

pub pow_add : (j k : ℕ) → 2 ^ (j + k) ≡ 2 ^ j * 2 ^ k
pow_add zero k = ground arith
pow_add (suc j) k =
    rw (let e : suc j + k ≡ suc (j + k) = omega arith in e)
      (omega (arith, pow-suc 2 (j + k), pow_add j k, ap (λ (t : ℕ). t * 2 ^ k) (pow-suc 2 j)))

pred_mul : (p q : ℕ) → (p - 1) * q ≡ p * q - q
pred_mul zero q = omega arith
pred_mul (suc p) q = grind arith

-- A mask of all bits of a `u64` but the low `k`.
pub bit_and_top : (k a : ℕ) → k ≤ 64 → a < 2 ^ 64 → bit_and a (2 ^ 64 - 2 ^ k) ≡ a / 2 ^ k * 2 ^ k
bit_and_top k a h fits =
    let split : 2 ^ (64 - k) * 2 ^ k ≡ 2 ^ 64 =
      sym (pow_add (64 - k) k)
      ∙ ap (λ (t : ℕ). 2 ^ t) (let e : 64 - k + k ≡ 64 = omega arith in e) in
    let mask : 2 ^ 64 - 2 ^ k ≡ (2 ^ (64 - k) - 1) * 2 ^ k =
      omega (arith, pred_mul (2 ^ (64 - k)) (2 ^ k)) in
    let small : a / 2 ^ k < 2 ^ (64 - k) =
      (div-lt_iff_lt-mul (one-le-pow k 2 (omega arith))).1 (omega arith) in
    rw (mask, bit_and_high k (64 - k) a, mod-eq_of_lt small)

-- Flipping the low `k` bits.
pub bit_xor_ones : (k a : ℕ) → a < 2 ^ k → bit_xor a (2 ^ k - 1) ≡ 2 ^ k - 1 - a
bit_xor_ones zero a h = ground (arith, bit_xor-zero a)
bit_xor_ones (suc k) a h = ground (
  arith,
  bit_xor_digit a (2 ^ suc k - 1),
  pow-suc 2 k,
  one-le-pow k 2,
  bit_xor_ones k (a / 2),
  differ_one (a % 2),
)

pub bit_xor-one : (a : ℕ) → bit_xor (2 * a) 1 ≡ 2 * a + 1
bit_xor-one a = ground (arith, bit_xor_digit (2 * a) 1, bit_xor-zero a, differ_one 0)

pub bit_xor-one_odd : (a : ℕ) → bit_xor (2 * a + 1) 1 ≡ 2 * a
bit_xor-one_odd a = ground (arith, bit_xor_digit (2 * a + 1) 1, bit_xor-zero a, differ_one 1)
