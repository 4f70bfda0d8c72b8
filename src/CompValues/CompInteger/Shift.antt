-- ===== src/CompValues/CompInteger/Shift.antt =====
-- The shifts of compile-time integers, of core/comp_values.cpp.
use toy_language.Base.{
  ltb, leb, ◌==◌, returns, panic, undefined, ◌>>◌, panic_if, pos, ◌≤ℤ◌, ◌<ℤ◌, ℕ, zero, suc, ◌-◌,
  ◌*◌, ◌/◌, ◌%◌, ◌^◌, ◌≤◌, ◌<◌, bit_and, ◌≡◌, ap, ◌∙◌, true, false, ◌&&◌, ◌||◌, not, some, arith,
}
use native.Mathlib.Nat.{
  div-eq_of_lt, one-le-pow, pow-le-pow_right, div-div-eq-div-mul, mul_comm, div-le_self,
  div-mul-le_self, lt-div-mul-add,
}
use toy_language.Base.Bits.{bit_and_top, bit_and_high, div_power}
use toy_language.CompValues.CompInteger.{
  CompIntegerValue, is_negative, comp_integer_shift_left, comp_integer_shift_right,
}
use toy_language.CompValues.CompInteger.Value.{IsInlined, value, Represents}

half_comm : (n s : ℕ) → 2 * n / 2 ^ s / 2 ≡ n / 2 ^ s
half_comm n s =
    let halved : 2 * n / 2 ≡ n = omega arith in
    div-div-eq-div-mul (2 * n) (2 ^ s) 2
    ∙ rw (mul_comm (2 ^ s) 2, ← div-div-eq-div-mul (2 * n) 2 (2 ^ s), halved)

clear_lowest : (x : ℕ) → x < 2 ^ 64 → bit_and x (2 ^ 64 - 2) ≡ x / 2 * 2
clear_lowest x h = omega (arith, bit_and_high 1 63 x)

even_Represents : (n : ℕ) → n < 2 ^ 62 → Represents (pos n) (record { rep = n * 2 })
even_Represents n h = ground arith

even_nonneg : (n : ℕ) → n < 2 ^ 63 → pos 0 ≤ℤ value (record { rep = n / 2 * 2 })
even_nonneg n h = ground arith

le_lt_trans : {a b c : ℕ} → a ≤ b → b < c → a < c
le_lt_trans p q = omega arith

double_n :
    (a : CompIntegerValue) (n : ℕ) → IsInlined a → value a ≡ pos n → (a.rep ≡ 2 * n) × (n < 2 ^ 62)
double_n a n p l = ground arith

-- A shift count, as the code reads it.
shift_count :
    (b : CompIntegerValue) (shift : ℕ)
    → IsInlined b
    → value b ≡ pos shift
    → (b.rep / 2 ≡ shift) × (is_negative b ≡ false)
shift_count b shift h e = (ground arith, ground arith)

shift_right_rep :
    (a b : CompIntegerValue) (shift : ℕ)
    → IsInlined a
    → IsInlined b
    → value b ≡ pos shift
    → shift < 64
    → comp_integer_shift_right a b ≡ returns (some (record { rep = a.rep / 2 ^ shift / 2 * 2 }))
unfolding comp_integer_shift_right
shift_right_rep a b shift p q m h =
    let (count, sign) = shift_count b shift q m in
    rw (
      p.1,
      q.1,
      sign,
      count,
      let e : leb 64 shift ≡ false = ground arith in e,
      clear_lowest (a.rep / 2 ^ shift) (le_lt_trans (div-le_self a.rep (2 ^ shift)) p.0),
    )

-- `comp_integer_shift_right` of a value v that is not negative, by a shift below 64, gives v /
-- 2^shift.
pub comp_integer_shift_right-nonneg :
    (a b : CompIntegerValue) (n shift : ℕ)
    → IsInlined a
    → IsInlined b
    → value a ≡ pos n
    → value b ≡ pos shift
    → shift < 64
    → (r : CompIntegerValue) × (comp_integer_shift_right a b ≡ returns (some r))
      × Represents (pos (n / 2 ^ shift)) r
comp_integer_shift_right-nonneg a b n shift p q l m h =
    let (double, small) = double_n a n p l in
    (
      _,
      shift_right_rep a b shift p q m h,
      rw (double, half_comm n shift)
          (even_Represents (n / 2 ^ shift)
            (le_lt_trans (div-le_self n (2 ^ shift)) (omega (arith, p.0)))),
    )

-- `comp_integer_shift_right` of a negative value, by a shift from 1 to 63, gives a value that is
-- not negative: the sign is not copied.
pub comp_integer_shift_right-negative :
    (a b : CompIntegerValue) (shift : ℕ)
    → IsInlined a
    → IsInlined b
    → value a <ℤ pos 0
    → value b ≡ pos shift
    → 0 < shift
    → shift < 64
    → (r : CompIntegerValue) × (comp_integer_shift_right a b ≡ returns (some r))
      × (pos 0 ≤ℤ value r)
comp_integer_shift_right-negative a b zero p q l m some_bits h = absurd (omega arith)
comp_integer_shift_right-negative a b (suc s) p q l m some_bits h = (
  _,
  shift_right_rep a b (suc s) p q m h,
  even_nonneg (a.rep / 2 ^ suc s)
      (omega (arith, div_power a.rep s, div-le_self (a.rep / 2) (2 ^ s), p.0)),
)

doubled_rep : (n x : ℕ) → x ≡ 2 * n → x < 2 ^ 63 → Represents (pos n) (record { rep = x % 2 ^ 64 })
doubled_rep n x e h = ground arith

product_lt : (a b m k : ℕ) → a < m → b ≤ k → 0 < k → a * b < m * k
product_lt a b m k p q h = grind arith

-- The steps of `comp_integer_shift_left` at a shift from 1 to 63, with the mask in arithmetic.
shift_left_steps :
    (a b : CompIntegerValue) (t : ℕ)
    → IsInlined a
    → IsInlined b
    → value b ≡ pos (suc t)
    → t < 63
    → let sign_bits = a.rep / 2 ^ t * 2 ^ t in
      comp_integer_shift_left a b ≡ (
        panic_if (not (sign_bits == 0) && not (sign_bits == 2 ^ 64 - 2 ^ t))
        >> returns (some (record { rep = a.rep * 2 ^ suc t % 2 ^ 64 })))
unfolding comp_integer_shift_left
shift_left_steps a b t p q m h =
    let (count, sign) = shift_count b (suc t) q m in
    rw (
      p.1,
      q.1,
      sign,
      count,
      let e : (suc t == 0 || ltb 64 (suc t)) ≡ false = ground arith in e,
      let e : suc t - 1 ≡ t = omega arith in e,
      bit_and_top t a.rep (omega arith) p.0,
      let e : leb 64 (suc t) ≡ false = ground arith in e,
    )

-- `comp_integer_shift_left` of a value v that is not negative, by a shift from 1 to 32, gives v *
-- 2^shift if 2 * v is below 2^(shift - 1).
pub comp_integer_shift_left-nonneg :
    (a b : CompIntegerValue) (n t : ℕ)
    → IsInlined a
    → IsInlined b
    → value a ≡ pos n
    → value b ≡ pos (suc t)
    → t < 32
    → 2 * n < 2 ^ t
    → (r : CompIntegerValue) × (comp_integer_shift_left a b ≡ returns (some r))
      × Represents (pos (n * 2 ^ suc t)) r
comp_integer_shift_left-nonneg a b n t p q l m h fits =
    let (double, _) = double_n a n p l in
    let low : 2 ^ t ≤ 2 ^ 31 = pow-le-pow_right (omega arith) {i = t} {j = 31} (omega arith) in
    let high : 2 ^ suc t ≤ 2 ^ 32 = pow-le-pow_right (omega arith) {i = suc t} {j = 32} h in
    let zero_top : a.rep / 2 ^ t ≡ 0 = div-eq_of_lt (omega arith) in
    let clear : a.rep / 2 ^ t * 2 ^ t ≡ 0 = omega (arith, ap (λ (r : ℕ). r * 2 ^ t) zero_top) in
    (
      record { rep = a.rep * 2 ^ suc t % 2 ^ 64 },
      shift_left_steps a b t p q m (omega arith) ∙ rw clear,
      doubled_rep (n * 2 ^ suc t) (a.rep * 2 ^ suc t)
          (omega (arith, ap (λ (r : ℕ). r * 2 ^ suc t) double))
          (product_lt a.rep (2 ^ suc t) (2 ^ 31) (2 ^ 32) (omega arith) high (omega arith)),
    )

-- `comp_integer_shift_left` of a value v that is not negative, by a shift from 1 to 63, panics if
-- 2 * v is not below 2^(shift - 1), also where the result would be supported.
pub comp_integer_shift_left-panic :
    (a b : CompIntegerValue) (n t : ℕ)
    → IsInlined a
    → IsInlined b
    → value a ≡ pos n
    → value b ≡ pos (suc t)
    → t < 63
    → 2 ^ t ≤ 2 * n
    → comp_integer_shift_left a b ≡ panic
comp_integer_shift_left-panic a b n t p q l m h big =
    let (double, small) = double_n a n p l in
    let low : 2 ^ t ≤ 2 ^ 62 = pow-le-pow_right (omega arith) {i = t} {j = 62} (omega arith) in
    let inside = div-mul-le_self a.rep (2 ^ t) in
    let near = lt-div-mul-add {a = a.rep} (one-le-pow t 2 (omega arith)) in
    let set : not (a.rep / 2 ^ t * 2 ^ t == 0) && not (a.rep / 2 ^ t * 2 ^ t == 2 ^ 64 - 2 ^ t)
        ≡ true =
      ground arith in
    shift_left_steps a b t p q m h ∙ rw set

-- A shift to the left by 0 is undefined: the code shifts by `shift - 1` to make the mask.
pub comp_integer_shift_left-zero :
    (a b : CompIntegerValue)
    → IsInlined a
    → IsInlined b
    → value b ≡ pos 0
    → comp_integer_shift_left a b ≡ undefined
unfolding comp_integer_shift_left
comp_integer_shift_left-zero a b p q m =
    let (count, sign) = shift_count b 0 q m in rw (p.1, q.1, sign, count)
