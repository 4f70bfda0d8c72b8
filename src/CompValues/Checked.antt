-- ===== src/CompValues/Checked.antt =====
-- The overflow-checked integer arithmetic of core/comp_values.cpp (`add_checked_u8` to
-- `mul_checked_s64`). One function for each operation and signedness, with a clause for each of
-- the four widths; a call returns the C++ result and what it leaves in `*out`.
pub mod Exact
use toy_language.Base.{
  ℕ, ◌+◌, ◌-◌, ◌*◌, ◌%◌, ◌^◌, Bool, true, ◌&&◌, ltb, leb, if◌then◌else◌, ℤ, pos, negsuc, ◌+ℤ◌, ◌-ℤ◌,
  ◌*ℤ◌, ltb_ℤ, leb_ℤ, Width, w8, w16, w32, w64, min_s, max_s, to_u, to_s, wrap_s,
}

-- `result >= MIN && result <= MAX` at a width.
within_s : Width → ℤ → Bool
within_s w a = leb_ℤ (min_s w) a && leb_ℤ a (max_s w)

unfoldable pub add_checked_u : Width → ℕ → ℕ → Bool × ℕ
add_checked_u w8 a b = let result = (a + b) % 2 ^ 64 in (leb result 0xff, result % 2 ^ 8)
add_checked_u w16 a b = let result = (a + b) % 2 ^ 64 in (leb result 0xffff, result % 2 ^ 16)
add_checked_u w32 a b = let result = (a + b) % 2 ^ 64 in (leb result 0xffff_ffff, result % 2 ^ 32)
add_checked_u w64 a b = let result = (a + b) % 2 ^ 64 in (leb a result && leb b result, result)

-- Below 64 bits the sum is taken in `s64`, where it cannot overflow.
unfoldable pub add_checked_s : Width → ℤ → ℤ → Bool × ℤ
unfolding within_s
add_checked_s w8 a b = let result = a +ℤ b in (within_s w8 result, wrap_s w8 result)
add_checked_s w16 a b = let result = a +ℤ b in (within_s w16 result, wrap_s w16 result)
add_checked_s w32 a b = let result = a +ℤ b in (within_s w32 result, wrap_s w32 result)
add_checked_s w64 a b =
    let result = (to_u w64 a + to_u w64 b) % 2 ^ 64 in
    (
      if ltb_ℤ a (pos 0) then leb_ℤ (min_s w64 -ℤ a) b else leb_ℤ b (max_s w64 -ℤ a),
      to_s w64 result,
    )

-- `-` on `u64` wraps.
sub_u64 : ℕ → ℕ → ℕ
sub_u64 a b = (a + 2 ^ 64 - b) % 2 ^ 64

unfoldable pub sub_checked_u : Width → ℕ → ℕ → Bool × ℕ
unfolding sub_u64
sub_checked_u w8 a b = let result = sub_u64 a b in (leb result 0xff, result % 2 ^ 8)
sub_checked_u w16 a b = let result = sub_u64 a b in (leb result 0xffff, result % 2 ^ 16)
sub_checked_u w32 a b = let result = sub_u64 a b in (leb result 0xffff_ffff, result % 2 ^ 32)
sub_checked_u w64 a b = let result = sub_u64 a b in (leb b a, result)

-- The 32-bit clause casts and compares with the bounds of `s16`, as the source does.
unfoldable pub sub_checked_s : Width → ℤ → ℤ → Bool × ℤ
unfolding within_s sub_u64
sub_checked_s w8 a b = let result = a -ℤ b in (within_s w8 result, wrap_s w8 result)
sub_checked_s w16 a b = let result = a -ℤ b in (within_s w16 result, wrap_s w16 result)
sub_checked_s w32 a b = let result = a -ℤ b in (within_s w16 result, wrap_s w16 result)
sub_checked_s w64 a b =
    let result = to_s w64 (sub_u64 (to_u w64 a) (to_u w64 b)) in
    (
      if ltb_ℤ (pos 0) a && ltb_ℤ b (pos 0)
          then ltb_ℤ (pos 0) result
          else if ltb_ℤ a (pos 0) && ltb_ℤ (pos 0) b
          then ltb_ℤ result (pos 0)
          else true,
      result,
    )

-- At 64 bits this is the branch for GCC and Clang: `__builtin_mul_overflow` stores the product
-- wrapped to the width, and reports whether that lost anything.
unfoldable pub mul_checked_u : Width → ℕ → ℕ → Bool × ℕ
mul_checked_u w8 a b = let result = (a * b) % 2 ^ 64 in (leb result 0xff, result % 2 ^ 8)
mul_checked_u w16 a b = let result = (a * b) % 2 ^ 64 in (leb result 0xffff, result % 2 ^ 16)
mul_checked_u w32 a b = let result = (a * b) % 2 ^ 64 in (leb result 0xffff_ffff, result % 2 ^ 32)
mul_checked_u w64 a b = (ltb (a * b) (2 ^ 64), (a * b) % 2 ^ 64)

unfoldable pub mul_checked_s : Width → ℤ → ℤ → Bool × ℤ
unfolding within_s
mul_checked_s w8 a b = let result = a *ℤ b in (within_s w8 result, wrap_s w8 result)
mul_checked_s w16 a b = let result = a *ℤ b in (within_s w16 result, wrap_s w16 result)
mul_checked_s w32 a b = let result = a *ℤ b in (within_s w32 result, wrap_s w32 result)
mul_checked_s w64 a b = let result = a *ℤ b in (within_s w64 result, wrap_s w64 result)
