-- ===== src/CompValues/CompInteger/Bits.antt =====
-- The bit operations of compile-time integers, of core/comp_values.cpp.
use toy_language.Base.{
  Returns, ◌-ℤ◌, pos, negsuc, ℕ, suc, ◌+◌, ◌-◌, ◌*◌, ◌/◌, ◌%◌, ◌^◌, ◌<◌, bit_and, bit_or, bit_xor,
  ◌≡◌, sym, ap, ◌⊎◌, inl, inr, arith,
}
use Prim.Native.Nat.{min, max, differ}
use toy_language.Base.Bits.{bit_xor-one_odd, bit_and_digit, bit_or_digit, bit_xor_digit}
use toy_language.Base.Digits.{
  digit, digit_ℤ, digit_flip, digit-bit_and, digit-bit_or, digit-bit_xor, bit_and-lt, bit_or-lt,
  bit_xor-lt, halves,
}
use toy_language.CompValues.CompInteger.{
  CompIntegerValue, comp_integer_bit_and, comp_integer_bit_or, comp_integer_bit_xor,
  comp_integer_bit_not,
}
use toy_language.CompValues.CompInteger.Value.{IsInlined, value, Represents}

value_forms :
    (c : CompIntegerValue)
    → IsInlined c
    → (value c ≡ pos (c.rep / 2)) ⊎ (value c ≡ negsuc ((2 ^ 64 - 1 - c.rep) / 2))
value_forms c h = ground arith

-- Digit `k` of the value stands at place `k + 1` of the `rep`.
value-digit :
    (c : CompIntegerValue) (k : ℕ)
    → IsInlined c
    → k < 63
    → digit_ℤ k (value c) ≡ digit (suc k) c.rep
value-digit c k h below =
    let low : digit (suc k) c.rep ≡ digit k (c.rep / 2) = halves k c.rep in
    let n = (2 ^ 64 - 1 - c.rep) / 2 in
    let flipped : 2 ^ 63 - 1 - n ≡ c.rep / 2 = omega arith in
    elim (value_forms c h) [
      | inl nonneg ↦ rw nonneg (sym low)
      | inr negative ↦ rw negative (
          omega
            (arith, low, digit_flip k 63 n below (omega arith), ap (λ (t : ℕ). digit k t) flipped))
    ]

even_or : (m n : ℕ) → m % 2 ≡ 0 → n % 2 ≡ 0 → bit_or m n % 2 ≡ 0
even_or m n h k = omega (arith, bit_or_digit m n)

even_xor : (m n : ℕ) → m % 2 ≡ 0 → n % 2 ≡ 0 → bit_xor m n % 2 ≡ 0
even_xor m n h k = ground (arith, bit_xor_digit m n)

-- Every digit of the result is `f` of the digits of the operands.
pub record IsDigitwise (f : ℕ → ℕ → ℕ) (a b r : CompIntegerValue) : Type 0 where
  pub inlined : IsInlined r
  pub digits :
      (k : ℕ) → k < 63 → digit_ℤ k (value r) ≡ f (digit_ℤ k (value a)) (digit_ℤ k (value b))

-- `comp_integer_bit_and` gives the conjunction of the digits in two's complement.
pub comp_integer_bit_and-IsDigitwise :
    (a b : CompIntegerValue)
    → IsInlined a
    → IsInlined b
    → Returns (comp_integer_bit_and a b) (IsDigitwise min a b)
unfolding comp_integer_bit_and
comp_integer_bit_and-IsDigitwise a b p q =
    let r : CompIntegerValue = record { rep = bit_and a.rep b.rep } in
    let inlined : IsInlined r =
      (bit_and-lt 64 a.rep b.rep p.0, omega (arith, bit_and_digit a.rep b.rep)) in
    (
      r,
      rw (p.1, q.1),
      record {
        inlined = inlined;
        digits = λ k h. ground (
          arith,
          value-digit r k inlined h,
          value-digit a k p h,
          value-digit b k q h,
          digit-bit_and (suc k) a.rep b.rep,
        );
      },
    )

-- `comp_integer_bit_or` gives the disjunction of the digits in two's complement.
pub comp_integer_bit_or-IsDigitwise :
    (a b : CompIntegerValue)
    → IsInlined a
    → IsInlined b
    → Returns (comp_integer_bit_or a b) (IsDigitwise max a b)
unfolding comp_integer_bit_or
comp_integer_bit_or-IsDigitwise a b p q =
    let r : CompIntegerValue = record { rep = bit_or a.rep b.rep } in
    let inlined : IsInlined r = (bit_or-lt 64 a.rep b.rep p.0 q.0, even_or a.rep b.rep p.1 q.1) in
    (
      r,
      rw (p.1, q.1),
      record {
        inlined = inlined;
        digits = λ k h. ground (
          arith,
          value-digit r k inlined h,
          value-digit a k p h,
          value-digit b k q h,
          digit-bit_or (suc k) a.rep b.rep,
        );
      },
    )

-- `comp_integer_bit_xor` gives the exclusive disjunction of the digits in two's complement.
pub comp_integer_bit_xor-IsDigitwise :
    (a b : CompIntegerValue)
    → IsInlined a
    → IsInlined b
    → Returns (comp_integer_bit_xor a b) (IsDigitwise differ a b)
unfolding comp_integer_bit_xor
comp_integer_bit_xor-IsDigitwise a b p q =
    let r : CompIntegerValue = record { rep = bit_xor a.rep b.rep } in
    let inlined : IsInlined r = (bit_xor-lt 64 a.rep b.rep p.0 q.0, even_xor a.rep b.rep p.1 q.1) in
    (
      r,
      rw (p.1, q.1),
      record {
        inlined = inlined;
        digits = λ k h. ground (
          arith,
          value-digit r k inlined h,
          value-digit a k p h,
          value-digit b k q h,
          digit-bit_xor (suc k) a.rep b.rep,
        );
      },
    )

not_value :
    (c : CompIntegerValue)
    → IsInlined c
    → Represents (negsuc 0 -ℤ value c) (record { rep = 2 * ((2 ^ 64 - 2 - c.rep) / 2) })
unfolding ◌-ℤ◌
not_value c h = ground arith

-- `comp_integer_bit_not` of an inlined value v gives -1 - v.
pub comp_integer_bit_not-Represents :
    (c : CompIntegerValue)
    → IsInlined c
    → Returns (comp_integer_bit_not c) (Represents (negsuc 0 -ℤ value c))
unfolding comp_integer_bit_not
comp_integer_bit_not-Represents c h =
    let m = (2 ^ 64 - 2 - c.rep) / 2 in
    let odd : 2 ^ 64 - 1 - c.rep ≡ 2 * m + 1 = omega arith in
    let flipped : bit_xor (2 ^ 64 - 1 - c.rep) 1 ≡ 2 * m = rw odd (bit_xor-one_odd m) in
    (record { rep = 2 * m }, rw (h.1, flipped), not_value c h)

-- `comp_integer_bit_and`, `comp_integer_bit_or` and `comp_integer_bit_xor` of inlined values give
-- the conjunction, the disjunction and the exclusive disjunction of the digits in two's complement.
pub comp_integer_bits-IsDigitwise :
    (a b : CompIntegerValue)
    → IsInlined a
    → IsInlined b
    → Returns (comp_integer_bit_and a b) (IsDigitwise min a b)
      × Returns (comp_integer_bit_or a b) (IsDigitwise max a b)
      × Returns (comp_integer_bit_xor a b) (IsDigitwise differ a b)
comp_integer_bits-IsDigitwise a b h k = (
  comp_integer_bit_and-IsDigitwise a b h k,
  comp_integer_bit_or-IsDigitwise a b h k,
  comp_integer_bit_xor-IsDigitwise a b h k,
)
