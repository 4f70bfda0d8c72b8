-- ===== src/CompValues/CompInteger.antt =====
-- `CompIntegerValue` of core/comp_values.cpp: compile-time integers of 63 bits, held shifted left by
-- one in a `u64` whose lowest bit is clear.
pub mod Value
pub mod Division
pub mod Convert
pub mod Bits
pub mod Shift
use toy_language.Base.{
  ltb, leb, ◌==◌, if◌then◌else◌, ltb→lt, ltb→le, lt→ltb, le→ltb, leb→le, ==_iff, Bool-cases,
  Option-cases, Run, returns, panic, undefined, ◌>>=◌, ◌>>◌, panic_if, undefined_if, Returns,
  length, get_elem?, get_or, set, take, drop, replicate, length-append, length-set,
  length-replicate, get_or-set_self, get_or-set_ne, get_or-replicate, get_or_ext, Width, w8, w16,
  w32, w64, bits, modulus, half, min_s, max_s, max_u, FitsU, FitsS, to_u, to_s, wrap_s, to_u-FitsU,
  to_s-FitsS, to_s-to_u, to_u-to_s, ◌+ℤ◌, ◌-ℤ◌, ◌*ℤ◌, quot_ℤ, rem_ℤ, ℤ, pos, negsuc, pos_part,
  neg_part, sub_ℕ, ◌≤ℤ◌, ◌<ℤ◌, ltb_ℤ, leb_ℤ, neg_ℕ, +ℤ_parts, -ℤ_parts, eq_of_parts, ℕ, zero, suc,
  ◌+◌, ◌-◌, ◌*◌, ◌/◌, ◌%◌, ◌^◌, ◌≤◌, ◌<◌, bit_and, bit_or, bit_xor, ◌≡◌, refl, sym, ap, ◌∙◌, ◌≢◌,
  ◌↔◌, ◌⊎◌, inl, inr, Bool, true, false, ◌&&◌, ◌||◌, not, Option, none, some, List, [], ◌∷◌, ◌++◌,
  map, arith,
}
use toy_language.CompValues.Checked.{add_checked_s, sub_checked_s, mul_checked_s}

pub record CompIntegerValue : Type 0 where
  pub rep : ℕ

pub data StrongCompareOrdering : Type 0 where
  equal less_than greater_than : StrongCompareOrdering

abbrev pub comp_integer_max : ℕ
comp_integer_max = 2 ^ 62 - 1

abbrev pub comp_integer_min : ℤ
comp_integer_min = negsuc (2 ^ 62 - 1)

abbrev pub is_inlined : CompIntegerValue → Bool
is_inlined value = value.rep % 2 == 0

abbrev pub is_negative : CompIntegerValue → Bool
is_negative value = ltb_ℤ (to_s w64 value.rep) (pos 0)

-- `>>` on a signed value: division by a power of two, rounded down.
abbrev pub shift_right_s : ℤ → ℕ → ℤ
shift_right_s (pos n) k = pos (n / 2 ^ k)
shift_right_s (negsuc n) k = negsuc (n / 2 ^ k)

-- `static_cast<s64>(value.rep) >> 1`.
abbrev pub s64_value : CompIntegerValue → ℤ
s64_value value = shift_right_s (to_s w64 value.rep) 1

-- `{ static_cast<u64>(value) << 1 }`.
abbrev pub shifted : ℤ → CompIntegerValue
shifted value = record { rep = to_u w64 value * 2 % 2 ^ 64 }

-- The test at the head of each operation.
abbrev pub require_inlined : CompIntegerValue → Run (Unit {0})
require_inlined value = panic_if (not (is_inlined value))

unfoldable pub comp_integer_from_u64 : ℕ → Run CompIntegerValue
comp_integer_from_u64 value = do
  panic_if (ltb comp_integer_max value)
  returns (record { rep = value * 2 % 2 ^ 64 })

unfoldable pub comp_integer_from_s64 : ℤ → Run CompIntegerValue
comp_integer_from_s64 value = do
  panic_if (ltb_ℤ value comp_integer_min)
  panic_if (ltb comp_integer_max (to_u w64 value))
  returns (shifted value)

-- `none` is a result of `false`, with `*out` left as it was.
unfoldable pub u64_from_comp_integer : CompIntegerValue → ℕ → Run (Option ℕ)
u64_from_comp_integer value bits = do
  require_inlined value
  let u64_value = value.rep / 2
  returns (
      if is_negative value
      then none
      else if not (bits == 64) && leb (2 ^ bits) u64_value
      then none
      else some u64_value)

unfoldable pub s64_from_comp_integer : CompIntegerValue → ℕ → Run (Option ℤ)
s64_from_comp_integer value bits = do
  require_inlined value
  -- `1 << (bits - 1)`.
  undefined_if (bits == 0)
  let v = s64_value value
  let limit = 2 ^ (bits - 1)
  returns
      (if not (bits == 64) && (ltb_ℤ v (neg_ℕ limit) || leb_ℤ (pos limit) v) then none else some v)

-- A checked result, or `panic`.
abbrev pub checked_rep : Bool × ℤ → Run CompIntegerValue
checked_rep (true, result) = returns (record { rep = to_u w64 result })
checked_rep (false, result) = panic

unfoldable pub comp_integer_add : CompIntegerValue → CompIntegerValue → Run CompIntegerValue
comp_integer_add lhs rhs = do
  panic_if (not (is_inlined lhs) || not (is_inlined rhs))
  checked_rep (add_checked_s w64 (to_s w64 lhs.rep) (to_s w64 rhs.rep))

unfoldable pub comp_integer_sub : CompIntegerValue → CompIntegerValue → Run CompIntegerValue
comp_integer_sub lhs rhs = do
  panic_if (not (is_inlined lhs) || not (is_inlined rhs))
  checked_rep (sub_checked_s w64 (to_s w64 lhs.rep) (to_s w64 rhs.rep))

unfoldable pub comp_integer_mul : CompIntegerValue → CompIntegerValue → Run CompIntegerValue
comp_integer_mul lhs rhs = do
  panic_if (not (is_inlined lhs) || not (is_inlined rhs))
  checked_rep (mul_checked_s w64 (to_s w64 lhs.rep) (s64_value rhs))

unfoldable pub comp_integer_div :
    CompIntegerValue → CompIntegerValue → Run (Option CompIntegerValue)
comp_integer_div lhs rhs = do
  panic_if (not (is_inlined lhs) || not (is_inlined rhs))
  let l = s64_value lhs
  let r = s64_value rhs
  returns (if leb_ℤ r (pos 0) && leb_ℤ (pos 0) r then none else some (shifted (quot_ℤ l r)))

unfoldable pub comp_integer_mod :
    CompIntegerValue → CompIntegerValue → Run (Option CompIntegerValue)
comp_integer_mod lhs rhs = do
  panic_if (not (is_inlined lhs) || not (is_inlined rhs))
  let l = s64_value lhs
  let r = s64_value rhs
  returns (if leb_ℤ r (pos 0) && leb_ℤ (pos 0) r then none else some (shifted (rem_ℤ l r)))

-- `value.rep >> 1` is a shift of a `u64`, so the sign bit moves down before the cast.
unfoldable pub comp_integer_neg : CompIntegerValue → Run CompIntegerValue
comp_integer_neg value = do
  require_inlined value
  panic_if (value.rep == to_u w64 comp_integer_min * 2 % 2 ^ 64)
  returns (shifted (pos 0 -ℤ to_s w64 (value.rep / 2)))

-- A shift by 64 or more is undefined, the one by `shift - 1` of a `shift` of 0 among them.
unfoldable pub comp_integer_shift_left :
    CompIntegerValue → CompIntegerValue → Run (Option CompIntegerValue)
comp_integer_shift_left lhs rhs = do
  panic_if (not (is_inlined lhs) || not (is_inlined rhs))
  let shift = rhs.rep / 2
  let sign_mask = 2 ^ 64 - 2 ^ (shift - 1)
  let sign_bits = bit_and lhs.rep sign_mask
  if is_negative rhs then returns none else (do
    undefined_if (shift == 0 || ltb 64 shift)
    panic_if (not (sign_bits == 0) && not (sign_bits == sign_mask))
    undefined_if (leb 64 shift)
    returns (some (record { rep = lhs.rep * 2 ^ shift % 2 ^ 64 })))

unfoldable pub comp_integer_shift_right :
    CompIntegerValue → CompIntegerValue → Run (Option CompIntegerValue)
comp_integer_shift_right lhs rhs = do
  panic_if (not (is_inlined lhs) || not (is_inlined rhs))
  let shift = rhs.rep / 2
  if is_negative rhs then returns none else (do
    undefined_if (leb 64 shift)
    returns (some (record { rep = bit_and (lhs.rep / 2 ^ shift) (2 ^ 64 - 2) })))

unfoldable pub comp_integer_bit_and : CompIntegerValue → CompIntegerValue → Run CompIntegerValue
comp_integer_bit_and lhs rhs = do
  panic_if (not (is_inlined lhs) || not (is_inlined rhs))
  returns (record { rep = bit_and lhs.rep rhs.rep })

unfoldable pub comp_integer_bit_or : CompIntegerValue → CompIntegerValue → Run CompIntegerValue
comp_integer_bit_or lhs rhs = do
  panic_if (not (is_inlined lhs) || not (is_inlined rhs))
  returns (record { rep = bit_or lhs.rep rhs.rep })

unfoldable pub comp_integer_bit_xor : CompIntegerValue → CompIntegerValue → Run CompIntegerValue
comp_integer_bit_xor lhs rhs = do
  panic_if (not (is_inlined lhs) || not (is_inlined rhs))
  returns (record { rep = bit_xor lhs.rep rhs.rep })

unfoldable pub comp_integer_bit_not : CompIntegerValue → Run CompIntegerValue
comp_integer_bit_not value = do
  require_inlined value
  returns (record { rep = bit_xor (2 ^ 64 - 1 - value.rep) 1 })

-- The comparison is of the `u64`s.
unfoldable pub comp_integer_compare :
    CompIntegerValue → CompIntegerValue → Run StrongCompareOrdering
comp_integer_compare lhs rhs = do
  panic_if (not (is_inlined lhs) || not (is_inlined rhs))
  returns (
      if lhs.rep == rhs.rep then equal else if ltb lhs.rep rhs.rep then less_than else greater_than)
