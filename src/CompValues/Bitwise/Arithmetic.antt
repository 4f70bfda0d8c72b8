-- ===== src/CompValues/Bitwise/Arithmetic.antt =====
-- The arithmetic on byte arrays against exact integers.
use toy_language.Base.{
  if◌then◌else◌, Run, returns, ◌>>◌, undefined_if, length, Width, w8, w16, w32, w64, bits, min_s,
  max_s, max_u, FitsU, FitsS, to_u, to_s, ◌+ℤ◌, ◌-ℤ◌, ◌*ℤ◌, quot_ℤ, rem_ℤ, ℤ, pos, negsuc, leb_ℤ, ℕ,
  ◌+◌, ◌*◌, ◌/◌, ◌≡◌, refl, ap, ◌≢◌, ◌⊎◌, inr, Bool, true, false, ◌&&◌, Option, none, some, List,
  arith,
}
use toy_language.Base.Bytes.{from_bytes, to_bytes, copy_to}
use mathlib.Core.Option
use toy_language.CompValues.Checked.{
  add_checked_u, add_checked_s, sub_checked_u, sub_checked_s, mul_checked_u, mul_checked_s,
}
use toy_language.CompValues.Checked.Exact.{
  IsExact, add_checked_u-Exact, add_checked_s-Exact, sub_checked_u-Exact, sub_checked_s-Exact,
  mul_checked_u-Exact, mul_checked_s-Exact,
}
use toy_language.CompValues.Bitwise.{
  BinaryArithmeticOp, add, sub, mul, div, modulo, checked, signed_op, unsigned_op, store_signed,
  store_unsigned,
}

-- The exact result; there is none for a divisor of 0.
abbrev pub exact : BinaryArithmeticOp → ℤ → ℤ → Option ℤ
exact add a b = some (a +ℤ b)
exact sub a b = some (a -ℤ b)
exact mul a b = some (a *ℤ b)
exact div a b = if leb_ℤ b (pos 0) && leb_ℤ (pos 0) b then none else some (quot_ℤ a b)
exact modulo a b = if leb_ℤ b (pos 0) && leb_ℤ (pos 0) b then none else some (rem_ℤ a b)

-- The range of a type, and what it keeps of an exact result.
abbrev pub low : Bool → Width → ℤ
low true w = min_s w
low false w = pos 0

abbrev pub high : Bool → Width → ℤ
high true w = max_s w
high false w = max_u w

abbrev pub within : Bool → Width → ℤ → Bool
within is_signed w v = leb_ℤ (low is_signed w) v && leb_ℤ v (high is_signed w)

abbrev pub kept : Bool → Width → Option ℤ → Option ℤ
kept is_signed w none = none
kept is_signed w (some v) = if within is_signed w v then some v else none

-- The integer that the bytes of a type stand for.
abbrev pub value_of : Bool → Width → List ℕ → ℤ
value_of true w bytes = to_s w (from_bytes bytes)
value_of false w bytes = pos (from_bytes bytes)

-- The operands at which the 64-bit operation is not exact.
abbrev pub IsRegular : BinaryArithmeticOp → ℤ → ℤ → Type 0
IsRegular add a b = Unit {0}
IsRegular sub a b = (a ≢ pos 0) ⊎ (b ≢ min_s w64)
IsRegular mul a b = Unit {0}
IsRegular div a b = (a ≢ min_s w64) ⊎ (b ≢ negsuc 0)
IsRegular modulo a b = (a ≢ min_s w64) ⊎ (b ≢ negsuc 0)

checked-eq :
    (v : ℤ) (r : Bool × ℤ)
    → IsExact (min_s w64) (max_s w64) v r.0 r.1
    → checked r ≡ kept true w64 (some v)
checked-eq v (true, out) e = ground (arith, e.reports.0, e.stores)
checked-eq v (false, out) e = ground (arith, e.reports.1)

abbrev is_zero : ℤ → Bool
is_zero b = leb_ℤ b (pos 0) && leb_ℤ (pos 0) b

abbrev overflows : ℤ → ℤ → Bool
overflows a b = leb_ℤ a (min_s w64) && leb_ℤ b (negsuc 0) && leb_ℤ (negsuc 0) b

no_overflow : (a b : ℤ) → (a ≢ min_s w64) ⊎ (b ≢ negsuc 0) → FitsS w64 a → overflows a b ≡ false
no_overflow a b r p = ground arith

quot_within :
    (a b : ℤ)
    → FitsS w64 a
    → (a ≢ min_s w64) ⊎ (b ≢ negsuc 0)
    → is_zero b ≡ false
    → within true w64 (quot_ℤ a b) ≡ true
unfolding quot_ℤ
quot_within (pos a) (pos b) p r n = ground arith
quot_within (pos a) (negsuc b) p r n = ground arith
quot_within (negsuc a) (pos b) p r n = ground arith
quot_within (negsuc a) (negsuc b) p r n = ground arith

rem_within : (a b : ℤ) → FitsS w64 a → is_zero b ≡ false → within true w64 (rem_ℤ a b) ≡ true
unfolding rem_ℤ
rem_within (pos a) (pos b) p n = ground arith
rem_within (pos a) (negsuc b) p n = ground arith
rem_within (negsuc a) (pos b) p n = ground arith
rem_within (negsuc a) (negsuc b) p n = ground arith

-- The shape of a division, with its tests on the operands.
divide-eq :
    (zero_divisor overflow : Bool) (v : ℤ)
    → overflow ≡ false
    → (zero_divisor ≡ false → within true w64 v ≡ true)
    → (if zero_divisor then returns none else undefined_if overflow >> returns (some v))
      ≡ returns (kept true w64 (if zero_divisor then none else some v))
divide-eq true overflow v p q = refl
divide-eq false overflow v p q = rw (p, q refl)

pub signed_op-eq :
    (op : BinaryArithmeticOp) (a b : ℤ)
    → FitsS w64 a
    → FitsS w64 b
    → IsRegular op a b
    → signed_op op a b ≡ returns (kept true w64 (exact op a b))
unfolding signed_op
signed_op-eq add a b p q r =
    ap returns (checked-eq (a +ℤ b) (add_checked_s w64 a b) (add_checked_s-Exact w64 a b p q))
signed_op-eq sub a b p q r =
    ap returns
      (checked-eq (a -ℤ b) (sub_checked_s w64 a b) (sub_checked_s-Exact w64 a b p q (cc) (inr r)))
signed_op-eq mul a b p q r =
    ap returns (checked-eq (a *ℤ b) (mul_checked_s w64 a b) (mul_checked_s-Exact w64 a b p q))
signed_op-eq div a b p q r =
    divide-eq (is_zero b) (overflows a b) (quot_ℤ a b) (no_overflow a b r p) (quot_within a b p r)
signed_op-eq modulo a b p q r =
    divide-eq (is_zero b) (overflows a b) (rem_ℤ a b) (no_overflow a b r p) (rem_within a b p)

checked_u-eq :
    (v : ℤ) (r : Bool × ℕ)
    → IsExact (pos 0) (max_u w64) v r.0 (pos r.1)
    → Option.map pos (checked r) ≡ kept false w64 (some v)
unfolding Option.map
checked_u-eq v (true, out) e = ground (arith, e.reports.0, e.stores)
checked_u-eq v (false, out) e = ground (arith, e.reports.1)

pos_sum : (a b : ℕ) → pos a +ℤ pos b ≡ pos (a + b)
unfolding ◌+ℤ◌
pos_sum a b = ground arith

pos_product : (a b : ℕ) → pos a *ℤ pos b ≡ pos (a * b)
unfolding ◌*ℤ◌
pos_product a b = ground arith

pub unsigned_op-eq :
    (op : BinaryArithmeticOp) (a b : ℕ)
    → FitsU w64 a
    → FitsU w64 b
    → Option.map pos (unsigned_op op a b) ≡ kept false w64 (exact op (pos a) (pos b))
unfolding unsigned_op Option.map quot_ℤ rem_ℤ
unsigned_op-eq add a b p q =
    checked_u-eq (pos a +ℤ pos b) (add_checked_u w64 a b)
      (rw (pos_sum a b) (add_checked_u-Exact w64 a b p q))
unsigned_op-eq sub a b p q =
    checked_u-eq (pos a -ℤ pos b) (sub_checked_u w64 a b) (sub_checked_u-Exact w64 a b p q)
unsigned_op-eq mul a b p q =
    checked_u-eq (pos a *ℤ pos b) (mul_checked_u w64 a b)
      (rw (pos_product a b) (mul_checked_u-Exact w64 a b p q))
unsigned_op-eq div a b p q = ground arith
unsigned_op-eq modulo a b p q = ground arith

-- The range test and the copy, at the width of the destination.
pub store_signed-eq :
    (w : Width) (dst : List ℕ) (v : ℤ)
    → FitsS w64 v
    → store_signed (bits w) dst (some v) ≡ (
        if within true w v
        then (true, copy_to dst 0 (to_bytes (length dst) (to_u w64 v)))
        else (false, dst))
unfolding store_signed
store_signed-eq w8 dst v h = ground arith
store_signed-eq w16 dst v h = ground arith
store_signed-eq w32 dst v h = ground arith
store_signed-eq w64 dst v h = ground arith

pub store_unsigned-eq :
    (w : Width) (dst : List ℕ) (v : ℕ)
    → FitsU w64 v
    → store_unsigned (bits w) dst (some v) ≡ (
        if within false w (pos v)
        then (true, copy_to dst 0 (to_bytes (length dst) v))
        else (false, dst))
unfolding store_unsigned
store_unsigned-eq w8 dst v h = ground arith
store_unsigned-eq w16 dst v h = ground arith
store_unsigned-eq w32 dst v h = ground arith
store_unsigned-eq w64 dst v h = ground arith

-- What the caller of an arithmetic function is promised: the exact result in `dst` and `true` if
-- it fits the type, and otherwise `false` with `dst` as it was.
pub record Stores (is_signed : Bool) (w : Width) (dst : List ℕ) (result : Option ℤ)
    (run : Run (Bool × List ℕ)) : Type 0 where
  pub fits :
      (v : ℤ)
      → result ≡ some v
      → within is_signed w v ≡ true
      → (out : List ℕ) × (run ≡ returns (true, out))
        × (length out ≡ length dst)
        × (value_of is_signed w out ≡ v)
  pub missing : result ≡ none → run ≡ returns (false, dst)
  pub too_large :
      (v : ℤ) → result ≡ some v → within is_signed w v ≡ false → run ≡ returns (false, dst)

-- The bytes that are stored stand for the value.
pub stored_signed :
    (w : Width) (v : ℤ) → FitsS w v → to_s w (from_bytes (to_bytes (bits w / 8) (to_u w64 v))) ≡ v
stored_signed w8 v h = ground arith
stored_signed w16 v h = ground arith
stored_signed w32 v h = ground arith
stored_signed w64 v h = ground arith

pub stored_unsigned : (w : Width) (v : ℕ) → FitsU w v → from_bytes (to_bytes (bits w / 8) v) ≡ v
stored_unsigned w8 v h = omega arith
stored_unsigned w16 v h = omega arith
stored_unsigned w32 v h = omega arith
stored_unsigned w64 v h = omega arith
