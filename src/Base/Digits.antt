-- ===== src/Base/Digits.antt =====
-- The single binary digits of a number, and of an integer in two's complement.
use Prim.Native.Nat.{min, max, differ}
use mathlib.Core.Path.{◌≡◌, ap}
use native.Mathlib.Nat.{pow-suc, one-le-pow}
use native.Mathlib.Omega.{arith}
use Prim.Native.Nat.{ℕ, zero, suc, ◌-◌, ◌/◌, ◌%◌, ◌^◌, ◌<◌, bit_and, bit_or, bit_xor}
use toy_language.Base.Int.{ℤ, pos, negsuc}
use toy_language.Base.Bits.{zero-bit_and, bit_and_digit, bit_or_digit, bit_xor_digit, div_power}

abbrev pub digit : ℕ → ℕ → ℕ
digit k n = n / 2 ^ k % 2

-- The digits of a negative integer are those of the number below its size, flipped.
abbrev pub digit_ℤ : ℕ → ℤ → ℕ
digit_ℤ k (pos n) = digit k n
digit_ℤ k (negsuc n) = 1 - digit k n

pub halves : (k n : ℕ) → digit (suc k) n ≡ digit k (n / 2)
halves k n = ap (λ (t : ℕ). t % 2) (div_power n k)

bit_and_half : (a b : ℕ) → bit_and a b / 2 ≡ bit_and (a / 2) (b / 2)
bit_and_half a b = omega (arith, bit_and_digit a b)

bit_or_half : (a b : ℕ) → bit_or a b / 2 ≡ bit_or (a / 2) (b / 2)
bit_or_half a b = omega (arith, bit_or_digit a b)

differ-lt : (a b : ℕ) → a < 2 → b < 2 → differ a b < 2
differ-lt zero b h k = k
differ-lt (suc zero) zero h k = omega arith
differ-lt (suc zero) (suc zero) h k = omega arith
differ-lt (suc zero) (suc (suc b)) h k = absurd (omega arith)
differ-lt (suc (suc a)) b h k = absurd (omega arith)

bit_xor_half : (a b : ℕ) → bit_xor a b / 2 ≡ bit_xor (a / 2) (b / 2)
bit_xor_half a b =
    omega (arith, bit_xor_digit a b, differ-lt (a % 2) (b % 2) (omega arith) (omega arith))

pub digit-bit_and : (k a b : ℕ) → digit k (bit_and a b) ≡ min (digit k a) (digit k b)
digit-bit_and zero a b = omega (arith, bit_and_digit a b)
digit-bit_and (suc k) a b = ground (
  arith,
  halves k (bit_and a b),
  halves k a,
  halves k b,
  bit_and_half a b,
  digit-bit_and k (a / 2) (b / 2),
)

pub digit-bit_or : (k a b : ℕ) → digit k (bit_or a b) ≡ max (digit k a) (digit k b)
digit-bit_or zero a b = omega (arith, bit_or_digit a b)
digit-bit_or (suc k) a b = ground (
  arith,
  halves k (bit_or a b),
  halves k a,
  halves k b,
  bit_or_half a b,
  digit-bit_or k (a / 2) (b / 2),
)

pub digit-bit_xor : (k a b : ℕ) → digit k (bit_xor a b) ≡ differ (digit k a) (digit k b)
digit-bit_xor zero a b = ground (arith, bit_xor_digit a b, differ-lt (a % 2) (b % 2))
digit-bit_xor (suc k) a b = ground (
  arith,
  halves k (bit_xor a b),
  halves k a,
  halves k b,
  bit_xor_half a b,
  digit-bit_xor k (a / 2) (b / 2),
)

-- Flipping the low `j` digits.
pub digit_flip : (k j n : ℕ) → k < j → n < 2 ^ j → digit k (2 ^ j - 1 - n) ≡ 1 - digit k n
digit_flip k zero n h p = absurd (omega arith)
digit_flip zero (suc j) n h p = omega (arith, pow-suc 2 j, one-le-pow j 2)
digit_flip (suc k) (suc j) n h p =
    let half : (2 ^ suc j - 1 - n) / 2 ≡ 2 ^ j - 1 - n / 2 =
      omega (arith, pow-suc 2 j, one-le-pow j 2) in
    ground
      (arith, halves k (2 ^ suc j - 1 - n), halves k n, half, pow-suc 2 j, digit_flip k j (n / 2))

pub bit_and-lt : (k a b : ℕ) → a < 2 ^ k → bit_and a b < 2 ^ k
bit_and-lt zero zero b h = omega (arith, zero-bit_and b)
bit_and-lt zero (suc a) b h = absurd (omega arith)
bit_and-lt (suc k) a b h = omega (
  arith,
  pow-suc 2 k,
  bit_and_digit a b,
  bit_and-lt k (a / 2) (b / 2) (omega (arith, pow-suc 2 k)),
)

pub bit_or-lt : (k a b : ℕ) → a < 2 ^ k → b < 2 ^ k → bit_or a b < 2 ^ k
bit_or-lt zero zero zero h p = omega (arith, bit_or_digit 0 0)
bit_or-lt zero zero (suc b) h p = absurd (omega arith)
bit_or-lt zero (suc a) b h p = absurd (omega arith)
bit_or-lt (suc k) a b h p = omega (
  arith,
  pow-suc 2 k,
  bit_or_digit a b,
  bit_or-lt k (a / 2) (b / 2) (omega (arith, pow-suc 2 k)) (omega (arith, pow-suc 2 k)),
)

pub bit_xor-lt : (k a b : ℕ) → a < 2 ^ k → b < 2 ^ k → bit_xor a b < 2 ^ k
bit_xor-lt zero zero zero h p = omega (arith, bit_xor_digit 0 0)
bit_xor-lt zero zero (suc b) h p = absurd (omega arith)
bit_xor-lt zero (suc a) b h p = absurd (omega arith)
bit_xor-lt (suc k) a b h p = omega (
  arith,
  pow-suc 2 k,
  bit_xor_digit a b,
  differ-lt (a % 2) (b % 2) (omega arith) (omega arith),
  bit_xor-lt k (a / 2) (b / 2) (omega (arith, pow-suc 2 k)) (omega (arith, pow-suc 2 k)),
)
