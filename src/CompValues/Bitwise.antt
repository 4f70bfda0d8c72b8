-- ===== src/CompValues/Bitwise.antt =====
-- Arithmetic on integers held as byte arrays, of core/comp_values.cpp: `bitwise_add` to
-- `bitwise_mod`, the negation and the complement. A function takes the bytes of `dst` before the call
-- and returns those after it.
pub mod Arithmetic
pub mod Exact
pub mod Complement
use toy_language.Base.{
  ltb, leb, ◌==◌, if◌then◌else◌, ltb→lt, ltb→le, lt→ltb, le→ltb, leb→le, ==_iff, Bool-cases,
  Option-cases, Run, returns, panic, undefined, ◌>>=◌, ◌>>◌, panic_if, undefined_if, Returns,
  length, get_elem?, get_or, set, take, drop, replicate, length-append, length-set,
  length-replicate, get_or-set_self, get_or-set_ne, get_or-replicate, get_or_ext, Width, w8, w16,
  w32, w64, bits, modulus, half, min_s, max_s, max_u, FitsU, FitsS, to_u, to_s, wrap_s, to_u-FitsU,
  to_s-FitsS, to_s-to_u, to_u-to_s, ◌+ℤ◌, ◌-ℤ◌, ◌*ℤ◌, quot_ℤ, rem_ℤ, ℤ, pos, negsuc, pos_part,
  neg_part, sub_ℕ, ◌≤ℤ◌, ◌<ℤ◌, ltb_ℤ, leb_ℤ, neg_ℕ, +ℤ_parts, -ℤ_parts, *ℤ_parts, eq_of_parts, ℕ,
  zero, suc, ◌+◌, ◌-◌, ◌*◌, ◌/◌, ◌%◌, ◌^◌, ◌≤◌, ◌<◌, bit_and, bit_or, bit_xor, ◌≡◌, refl, sym, ap,
  ◌∙◌, ◌≢◌, ◌↔◌, ◌⊎◌, inl, inr, Bool, true, false, ◌&&◌, ◌||◌, not, Option, none, some, List, [],
  ◌∷◌, ◌++◌, map, arith,
}
use toy_language.Base.Bytes.{from_bytes, to_bytes, copy_to}
use toy_language.CompValues.Checked.{
  add_checked_u, add_checked_s, sub_checked_u, sub_checked_s, mul_checked_u, mul_checked_s,
}

pub data BinaryArithmeticOp : Type 0 where
  add sub mul div modulo : BinaryArithmeticOp

-- A checked result; `none` is the `return false` of the operation.
abbrev pub checked {ℓ} : {A : Type ℓ} → Bool × A → Option A
checked (true, out) = some out
checked (false, out) = none

-- The operation on the values in `s64`. The quotient of the least value by -1 is undefined, and so
-- is that remainder.
unfoldable pub signed_op : BinaryArithmeticOp → ℤ → ℤ → Run (Option ℤ)
signed_op add lhs_value rhs_value = returns (checked (add_checked_s w64 lhs_value rhs_value))
signed_op sub lhs_value rhs_value = returns (checked (sub_checked_s w64 lhs_value rhs_value))
signed_op mul lhs_value rhs_value = returns (checked (mul_checked_s w64 lhs_value rhs_value))
signed_op div lhs_value rhs_value =
    if leb_ℤ rhs_value (pos 0) && leb_ℤ (pos 0) rhs_value then returns none else (do
      undefined_if
          (leb_ℤ lhs_value (min_s w64) && leb_ℤ rhs_value (negsuc 0) && leb_ℤ (negsuc 0) rhs_value)
      returns (some (quot_ℤ lhs_value rhs_value)))
signed_op modulo lhs_value rhs_value =
    if leb_ℤ rhs_value (pos 0) && leb_ℤ (pos 0) rhs_value then returns none else (do
      undefined_if
          (leb_ℤ lhs_value (min_s w64) && leb_ℤ rhs_value (negsuc 0) && leb_ℤ (negsuc 0) rhs_value)
      returns (some (rem_ℤ lhs_value rhs_value)))

unfoldable pub unsigned_op : BinaryArithmeticOp → ℕ → ℕ → Option ℕ
unsigned_op add lhs_value rhs_value = checked (add_checked_u w64 lhs_value rhs_value)
unsigned_op sub lhs_value rhs_value = checked (sub_checked_u w64 lhs_value rhs_value)
unsigned_op mul lhs_value rhs_value = checked (mul_checked_u w64 lhs_value rhs_value)
unsigned_op div lhs_value rhs_value = if rhs_value == 0 then none else some (lhs_value / rhs_value)
unsigned_op modulo lhs_value rhs_value =
    if rhs_value == 0 then none else some (lhs_value % rhs_value)

-- `bits` is 8, 16, 32 or 64, as the assertion at the head of the function asks.
abbrev pub width_of_bits : ℕ → Width
width_of_bits bits =
    if bits == 8 then w8 else if bits == 16 then w16 else if bits == 32 then w32 else w64

-- The range test and the `memcpy` at the end of the signed half.
unfoldable pub store_signed : ℕ → List ℕ → Option ℤ → Bool × List ℕ
store_signed bits dst none = (false, dst)
store_signed bits dst (some dst_value) =
    let min_value = neg_ℕ (2 ^ (bits - 1)) in
    let max_value = pos (2 ^ (bits - 1) - 1) in
    if not (bits == 64) && (ltb_ℤ dst_value min_value || ltb_ℤ max_value dst_value)
    then (false, dst)
    else (true, copy_to dst 0 (to_bytes (length dst) (to_u w64 dst_value)))

unfoldable pub store_unsigned : ℕ → List ℕ → Option ℕ → Bool × List ℕ
store_unsigned bits dst none = (false, dst)
store_unsigned bits dst (some dst_value) =
    if not (bits == 64) && ltb (2 ^ bits - 1) dst_value
    then (false, dst)
    else (true, copy_to dst 0 (to_bytes (length dst) dst_value))

unfoldable pub bitwise_binary_arithmetic_op :
    BinaryArithmeticOp → ℕ → Bool → List ℕ → List ℕ → List ℕ → Run (Bool × List ℕ)
unfolding signed_op unsigned_op store_signed store_unsigned
bitwise_binary_arithmetic_op op bits is_signed dst lhs rhs =
    let w = width_of_bits bits in
    if is_signed
    then (do
      result ← signed_op op (to_s w (from_bytes lhs)) (to_s w (from_bytes rhs))
      returns (store_signed bits dst result))
    else returns (store_unsigned bits dst (unsigned_op op (from_bytes lhs) (from_bytes rhs)))

-- One `dst[i] = ~operand[i]` for each whole byte.
unfoldable pub not_bytes : ℕ → List ℕ → List ℕ → List ℕ
not_bytes zero dst operand = dst
not_bytes (suc n) [] operand = []
not_bytes (suc n) (d ∷ dst) [] = d ∷ dst
not_bytes (suc n) (d ∷ dst) (o ∷ operand) = (255 - o) ∷ not_bytes n dst operand

-- A mask for the bits of the last byte is only made if it is not whole; `1 << bits` is undefined
-- from 31 on.
unfoldable pub bitwise_not : ℕ → List ℕ → List ℕ → Run (List ℕ)
unfolding not_bytes
bitwise_not bits dst operand =
    let bytes = bits / 8 in
    let flipped = not_bytes bytes dst operand in
    let mask = (2 ^ bits - 1) % 256 in
    if bits % 8 == 0 then returns flipped else (do
      undefined_if (leb 31 bits)
      returns (set flipped bytes (bit_xor (get_or operand bytes 0) mask)))

-- The loop of `bitwise_neg` over `n` bytes: it adds one, and stops at a byte that does not carry.
unfoldable pub increment : ℕ → List ℕ → Bool × List ℕ
increment zero dst = (false, dst)
increment (suc n) [] = (false, [])
increment (suc n) (prev ∷ dst) =
    let (done, rest) = increment n dst in
    if prev == 255 then (done, (prev + 1) % 256 ∷ rest) else (true, (prev + 1) % 256 ∷ dst)

-- The part after the loop, for the bits of a last byte that is not whole.
unfoldable pub increment_partial : ℕ → List ℕ → Bool × List ℕ
increment_partial bits dst =
    let bytes = bits / 8 in
    let mask = 2 ^ (bits % 8) - 1 in
    let prev = get_or dst bytes 0 in
    let prev_masked = bit_and prev mask in
    if not (bits % 8 == 0) && not (prev_masked == mask)
    then (true, set dst bytes ((bit_or prev_masked (bit_and prev (255 - mask)) + 1) % 256))
    else (false, dst)

unfoldable pub bitwise_neg : ℕ → List ℕ → List ℕ → Run (Bool × List ℕ)
unfolding bitwise_not increment increment_partial
bitwise_neg bits dst operand = do
  flipped ← bitwise_not bits dst operand
  let (done, sum) = increment (bits / 8) flipped
  returns (if done then (true, sum) else increment_partial bits sum)

abbrev pub bitwise_add : ℕ → Bool → List ℕ → List ℕ → List ℕ → Run (Bool × List ℕ)
bitwise_add bits is_signed dst lhs rhs = bitwise_binary_arithmetic_op add bits is_signed dst lhs rhs

abbrev pub bitwise_sub : ℕ → Bool → List ℕ → List ℕ → List ℕ → Run (Bool × List ℕ)
bitwise_sub bits is_signed dst lhs rhs = bitwise_binary_arithmetic_op sub bits is_signed dst lhs rhs

abbrev pub bitwise_mul : ℕ → Bool → List ℕ → List ℕ → List ℕ → Run (Bool × List ℕ)
bitwise_mul bits is_signed dst lhs rhs = bitwise_binary_arithmetic_op mul bits is_signed dst lhs rhs

abbrev pub bitwise_div : ℕ → Bool → List ℕ → List ℕ → List ℕ → Run (Bool × List ℕ)
bitwise_div bits is_signed dst lhs rhs = bitwise_binary_arithmetic_op div bits is_signed dst lhs rhs

abbrev pub bitwise_mod : ℕ → Bool → List ℕ → List ℕ → List ℕ → Run (Bool × List ℕ)
bitwise_mod bits is_signed dst lhs rhs =
    bitwise_binary_arithmetic_op modulo bits is_signed dst lhs rhs
