-- ===== src/CompValues/ByteShift.antt =====
-- `bitwise_shift_left` and `bitwise_shift_right` of core/comp_values.cpp. `rhs` is below `bits`, as
-- the assertion at the head asks, and `dst` and `lhs` are apart. `TODO` ends the program.
use toy_language.Base.{
  ◌==◌, if◌then◌else◌, Run, returns, ◌>>◌, panic_if, get_or, set, replicate, bits, ℕ, zero, suc,
  ◌+◌, ◌-◌, ◌*◌, ◌/◌, ◌%◌, ◌^◌, bit_and, bit_or, Bool, ◌&&◌, not, List,
}
use toy_language.Base.Bytes.{copy_to}

-- The loop at `i`, with `rounds` left.
unfoldable pub shift_left_loop : ℕ → ℕ → ℕ → ℕ → List ℕ → List ℕ → ℕ → List ℕ
shift_left_loop zero i shift_by_bytes shift_by_bits lhs dst carry = dst
shift_left_loop (suc rounds) i shift_by_bytes shift_by_bits lhs dst carry =
    let shifted = bit_or (get_or lhs i 0 * 2 ^ shift_by_bits % 2 ^ 16) carry in
    shift_left_loop rounds (suc i) shift_by_bytes shift_by_bits lhs
      (set dst (i + shift_by_bytes) (shifted % 256)) (shifted / 256)

unfoldable pub bitwise_shift_left : ℕ → List ℕ → List ℕ → ℕ → Run (List ℕ)
unfolding shift_left_loop
bitwise_shift_left bits dst lhs rhs = do
  let shift_by_bytes = rhs / 8
  let shift_by_bits = rhs % 8
  let shift_size = bits / 8 - shift_by_bytes
  let cleared = copy_to dst shift_size (replicate shift_by_bytes 0)
  let shifted = shift_left_loop shift_size 0 shift_by_bytes shift_by_bits lhs cleared 0
  panic_if (not (bits % 8 == 0))
  returns shifted

unfoldable pub shift_right_loop : ℕ → ℕ → ℕ → ℕ → List ℕ → List ℕ → ℕ → List ℕ
shift_right_loop zero i shift_by_bytes shift_by_bits lhs dst carry = dst
shift_right_loop (suc rounds) i shift_by_bytes shift_by_bits lhs dst carry =
    let lhs_byte = get_or lhs (i + shift_by_bytes) 0 in
    shift_right_loop rounds (suc i) shift_by_bytes shift_by_bits lhs
      (set dst (i + shift_by_bytes) (bit_or (lhs_byte / 2 ^ shift_by_bits) carry))
      (lhs_byte * 2 ^ (8 - shift_by_bits) % 256)

-- `0xFF` for an arithmetic shift of a negative value.
abbrev pub fill_byte : ℕ → List ℕ → Bool → ℕ
fill_byte bits lhs is_arithmetic_shift =
    let extra_bits = bits % 8 in
    let sign =
      if extra_bits == 0
      then bit_and (get_or lhs (bits / 8 - 1) 0) 0x80
      else bit_and (get_or lhs (bits / 8) 0) (2 ^ (extra_bits - 1)) in
    if is_arithmetic_shift && not (sign == 0) then 0xff else 0

unfoldable pub bitwise_shift_right : ℕ → List ℕ → List ℕ → ℕ → Bool → Run (List ℕ)
unfolding shift_right_loop
bitwise_shift_right bits dst lhs rhs is_arithmetic_shift = do
  let shift_by_bytes = rhs / 8
  let shift_by_bits = rhs % 8
  let shift_size = bits / 8 - shift_by_bytes
  let fill = fill_byte bits lhs is_arithmetic_shift
  let filled = copy_to dst 0 (replicate shift_by_bytes fill)
  panic_if (not (bits % 8 == 0))
  returns (shift_right_loop shift_size 0 shift_by_bytes shift_by_bits lhs filled 0)
