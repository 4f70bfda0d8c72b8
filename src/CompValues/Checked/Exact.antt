-- ===== src/CompValues/Checked/Exact.antt =====
-- The checked arithmetic against exact integers.
use toy_language.Base.{
  Width, w8, w16, w32, w64, min_s, max_s, max_u, FitsU, FitsS, ◌+ℤ◌, ◌-ℤ◌, ◌*ℤ◌, ℤ, pos, ◌≤ℤ◌, ℕ,
  ◌+◌, ◌*◌, ◌^◌, ◌<◌, ◌≡◌, refl, ◌≢◌, ◌↔◌, ◌⊎◌, Bool, true, arith,
}
use toy_language.CompValues.Checked.{
  add_checked_u, add_checked_s, sub_checked_u, sub_checked_s, mul_checked_u, mul_checked_s,
}

-- A checked operation with the exact result `v` reports whether `v` lies in the range, and stores
-- `v` if it reports that.
pub record IsExact (lo hi v : ℤ) (ok : Bool) (out : ℤ) : Type 0 where
  pub reports : (ok ≡ true) ↔ (lo ≤ℤ v) × (v ≤ℤ hi)
  pub stores : ok ≡ true → out ≡ v

abbrev pub ExactU : Width → ℤ → Bool × ℕ → Type 0
ExactU w v r = IsExact (pos 0) (max_u w) v r.0 (pos r.1)

abbrev pub ExactS : Width → ℤ → Bool × ℤ → Type 0
ExactS w v r = IsExact (min_s w) (max_s w) v r.0 r.1

-- Unsigned addition is exact at every width.
pub add_checked_u-Exact :
    (w : Width) (a b : ℕ) → FitsU w a → FitsU w b → ExactU w (pos (a + b)) (add_checked_u w a b)
unfolding add_checked_u
add_checked_u-Exact w8 a b p q = ground arith
add_checked_u-Exact w16 a b p q = ground arith
add_checked_u-Exact w32 a b p q = ground arith
add_checked_u-Exact w64 a b p q = ground arith

-- For operands that fit the width, signed addition reports at every width whether the sum fits,
-- and stores it if so.
pub add_checked_s-Exact :
    (w : Width) (a b : ℤ) → FitsS w a → FitsS w b → ExactS w (a +ℤ b) (add_checked_s w a b)
unfolding add_checked_s ◌+ℤ◌ ◌-ℤ◌
add_checked_s-Exact w8 a b p q = ground arith
add_checked_s-Exact w16 a b p q = ground arith
add_checked_s-Exact w32 a b p q = ground arith
add_checked_s-Exact w64 a b p q = ground arith

-- Unsigned subtraction is exact at every width.
pub sub_checked_u-Exact :
    (w : Width) (a b : ℕ) → FitsU w a → FitsU w b → ExactU w (pos a -ℤ pos b) (sub_checked_u w a b)
unfolding sub_checked_u ◌-ℤ◌
sub_checked_u-Exact w8 a b p q = ground arith
sub_checked_u-Exact w16 a b p q = ground arith
sub_checked_u-Exact w32 a b p q = ground arith
sub_checked_u-Exact w64 a b p q = ground arith

-- For operands that fit the width, signed subtraction reports whether the difference fits, and
-- stores it if so, at the widths other than 32 bits, and unless the least `s64` is subtracted from
-- 0.
pub sub_checked_s-Exact :
    (w : Width) (a b : ℤ)
    → FitsS w a
    → FitsS w b
    → w ≢ w32
    → (w ≢ w64) ⊎ (a ≢ pos 0) ⊎ (b ≢ min_s w64)
    → ExactS w (a -ℤ b) (sub_checked_s w a b)
unfolding sub_checked_s ◌-ℤ◌
sub_checked_s-Exact w8 a b p q n m = ground arith
sub_checked_s-Exact w16 a b p q n m = ground arith
sub_checked_s-Exact w32 a b p q n m = absurd (n refl)
sub_checked_s-Exact w64 a b p q n m = ground arith

-- For operands that fit 32 bits, signed subtraction at 32 bits reports whether the difference fits
-- 16 bits, and stores it if so: it refuses every other difference.
pub sub_checked_s32-narrow :
    (a b : ℤ) → FitsS w32 a → FitsS w32 b → ExactS w16 (a -ℤ b) (sub_checked_s w32 a b)
unfolding sub_checked_s ◌-ℤ◌
sub_checked_s32-narrow a b p q = ground arith

-- Products of numbers that fit a width below 64 bits do not reach `2 ^ 64`.
product_bound : (m n a b : ℕ) → a < m → b < n → a * b < m * n
product_bound m n a b p q = grind arith

-- Unsigned multiplication is exact at every width.
pub mul_checked_u-Exact :
    (w : Width) (a b : ℕ) → FitsU w a → FitsU w b → ExactU w (pos (a * b)) (mul_checked_u w a b)
unfolding mul_checked_u
mul_checked_u-Exact w8 a b p q = ground (arith, product_bound (2 ^ 8) (2 ^ 8) a b)
mul_checked_u-Exact w16 a b p q = ground (arith, product_bound (2 ^ 16) (2 ^ 16) a b)
mul_checked_u-Exact w32 a b p q = ground (arith, product_bound (2 ^ 32) (2 ^ 32) a b)
mul_checked_u-Exact w64 a b p q = ground arith

-- For operands that fit the width, signed multiplication reports at every width whether the
-- product fits, and stores it if so.
pub mul_checked_s-Exact :
    (w : Width) (a b : ℤ) → FitsS w a → FitsS w b → ExactS w (a *ℤ b) (mul_checked_s w a b)
unfolding mul_checked_s
mul_checked_s-Exact w8 a b p q = ground arith
mul_checked_s-Exact w16 a b p q = ground arith
mul_checked_s-Exact w32 a b p q = ground arith
mul_checked_s-Exact w64 a b p q = ground arith

-- For operands that fit the width, unsigned addition, subtraction and multiplication report at
-- every width whether the exact result fits, and store it if so.
pub checked_u-Exact :
    (w : Width) (a b : ℕ)
    → FitsU w a
    → FitsU w b
    → ExactU w (pos (a + b)) (add_checked_u w a b)
      × ExactU w (pos a -ℤ pos b) (sub_checked_u w a b)
      × ExactU w (pos (a * b)) (mul_checked_u w a b)
checked_u-Exact w a b h k =
    (add_checked_u-Exact w a b h k, sub_checked_u-Exact w a b h k, mul_checked_u-Exact w a b h k)
