-- ===== src/CompValues/CompInteger/Convert.antt =====
-- Conversions between compile-time integers and machine integers, and the comparison.
use toy_language.Base.{
  ltb, ◌==◌, if◌then◌else◌, ltb→lt, ltb→le, ==_iff, Bool-cases, returns, panic, w64, FitsS, ℤ, pos,
  negsuc, ◌≤ℤ◌, ◌<ℤ◌, ltb_ℤ, leb_ℤ, neg_ℕ, ℕ, ◌+◌, ◌-◌, ◌/◌, ◌%◌, ◌^◌, ◌≤◌, ◌<◌, ◌≡◌, refl, ap, ◌↔◌,
  inl, inr, false, ◌&&◌, ◌||◌, Option, none, some, arith,
}
use toy_language.CompValues.CompInteger.{
  CompIntegerValue, is_negative, equal, less_than, greater_than, comp_integer_max, shifted,
  comp_integer_from_u64, comp_integer_from_s64, u64_from_comp_integer, s64_from_comp_integer,
  comp_integer_compare,
}
use toy_language.CompValues.CompInteger.Value.{IsInlined, value, Computes}

-- `comp_integer_from_u64` of a `u64` gives its value, and panics if that is not supported.
pub comp_integer_from_u64-Computes :
    (n : ℕ) → n < 2 ^ 64 → Computes (pos n) (comp_integer_from_u64 n)
unfolding comp_integer_from_u64
comp_integer_from_u64-Computes n h = elim (Bool-cases (ltb comp_integer_max n)) [
  | inl big ↦
      rw big (record {
        supported = λ s. absurd (omega (arith, ltb→lt _ _ big));
        unsupported = λ u. refl;
      })
  | inr small ↦ rw small (record {
    supported = λ s. (_, refl, ground arith);
    unsupported = λ u. absurd (u (omega (arith, ltb→le _ _ small)));
  })
]

not_below : (n : ℕ) → ltb (n + 2 ^ 62) 0 ≡ false
not_below n = ground arith

-- `comp_integer_from_s64` of an `s64` that is not negative gives its value, and panics if that is
-- not supported.
pub comp_integer_from_s64-nonneg :
    (n : ℕ) → n < 2 ^ 63 → Computes (pos n) (comp_integer_from_s64 (pos n))
unfolding comp_integer_from_s64
comp_integer_from_s64-nonneg n h = elim (Bool-cases (ltb comp_integer_max n)) [
  | inl big ↦ record {
    supported = λ s. absurd (omega (arith, ltb→lt _ _ big));
    unsupported = λ u. let e : n % 2 ^ 64 ≡ n = omega arith in rw (not_below n, e, big);
  }
  | inr small ↦ record {
    supported = λ s. (
      shifted (pos n),
      let e : n % 2 ^ 64 ≡ n = omega arith in rw (not_below n, e, small),
      ground arith,
    );
    unsupported = λ u. absurd (u (omega (arith, ltb→le _ _ small)));
  }
]

-- `comp_integer_from_s64` panics at every negative `s64`, the supported ones included: the second
-- test compares the `u64` that the value casts to.
pub comp_integer_from_s64-panic :
    (v : ℤ) → FitsS w64 v → v <ℤ pos 0 → comp_integer_from_s64 v ≡ panic
unfolding comp_integer_from_s64
comp_integer_from_s64-panic v h neg = ground arith

-- The values of an unsigned and of a signed type of `w` bits.
abbrev pub as_unsigned : ℕ → ℤ → Option ℕ
as_unsigned w (pos n) = if ltb n (2 ^ w) then some n else none
as_unsigned w (negsuc n) = none

abbrev pub as_signed : ℕ → ℤ → Option ℤ
as_signed w v =
    if leb_ℤ (neg_ℕ (2 ^ (w - 1))) v && ltb_ℤ v (pos (2 ^ (w - 1))) then some v else none

word_unsigned :
    (c : CompIntegerValue)
    → IsInlined c
    → (if is_negative c then none else some (c.rep / 2)) ≡ as_unsigned 64 (value c)
word_unsigned c h = ground arith

word_signed : (c : CompIntegerValue) → IsInlined c → some (value c) ≡ as_signed 64 (value c)
word_signed c h = ground arith

signed_tests :
    (v : ℤ) (limit : ℕ)
    → (if ltb_ℤ v (neg_ℕ limit) || leb_ℤ (pos limit) v then none else some v)
      ≡ (if leb_ℤ (neg_ℕ limit) v && ltb_ℤ v (pos limit) then some v else none)
signed_tests v limit = ground arith

-- For up to 64 bits, `u64_from_comp_integer` of an inlined value gives the value if an unsigned
-- type of that many bits holds it, and `false` if not.
pub u64_from_comp_integer-eq :
    (c : CompIntegerValue) (w : ℕ)
    → IsInlined c
    → w ≤ 64
    → u64_from_comp_integer c w ≡ returns (as_unsigned w (value c))
unfolding u64_from_comp_integer
u64_from_comp_integer-eq c w h k = elim (Bool-cases (w == 64)) [
  | inl all ↦ rw (h.1, all) (ap returns (rw ((==_iff w 64).0 all) (word_unsigned c h)))
  | inr fewer ↦ rw (h.1, fewer) (ap returns (ground arith))
]

-- For 1 to 64 bits, `s64_from_comp_integer` of an inlined value gives the value if a signed type
-- of that many bits holds it, and `false` if not.
pub s64_from_comp_integer-eq :
    (c : CompIntegerValue) (w : ℕ)
    → IsInlined c
    → 0 < w
    → w ≤ 64
    → s64_from_comp_integer c w ≡ returns (as_signed w (value c))
unfolding s64_from_comp_integer
s64_from_comp_integer-eq c w h some_bits k =
    rw (h.1, let e : (w == 0) ≡ false = ground arith in e)
      (ap returns (elim (Bool-cases (w == 64)) [
        | inl all ↦ rw all (rw ((==_iff w 64).0 all) (word_signed c h))
        | inr fewer ↦ rw fewer (signed_tests (value c) (2 ^ (w - 1)))
      ]))

-- `comp_integer_compare` orders inlined values by their value, if both are negative or neither is.
pub comp_integer_compare-same_sign :
    (a b : CompIntegerValue)
    → IsInlined a
    → IsInlined b
    → (value a <ℤ pos 0) ↔ (value b <ℤ pos 0)
    → comp_integer_compare a b
      ≡ returns (
          if ltb_ℤ (value a) (value b)
          then less_than
          else if ltb_ℤ (value b) (value a)
          then greater_than
          else equal)
unfolding comp_integer_compare
comp_integer_compare-same_sign a b p q sign = rw (p.1, q.1) (ap returns (ground arith))

-- `comp_integer_compare` gives `greater_than` for a negative value and one that is not negative.
pub comp_integer_compare-mixed :
    (a b : CompIntegerValue)
    → IsInlined a
    → IsInlined b
    → value a <ℤ pos 0
    → pos 0 ≤ℤ value b
    → comp_integer_compare a b ≡ returns greater_than
unfolding comp_integer_compare
comp_integer_compare-mixed a b p q neg nonneg = rw (p.1, q.1) (ap returns (ground arith))
