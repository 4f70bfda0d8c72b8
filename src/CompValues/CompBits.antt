-- ===== src/CompValues/CompBits.antt =====
-- `bits_from_comp_integer` of core/comp_values.cpp, which writes a compile-time integer to memory.
use toy_language.Base.{
  ltb, leb, ◌==◌, if◌then◌else◌, Run, returns, ◌>>◌, get_or, set, replicate, w64, bits, to_u, ℤ, ℕ,
  ◌-◌, ◌*◌, ◌/◌, ◌%◌, ◌^◌, bit_and, bit_or, Bool, true, false, ◌&&◌, not, List,
}
use toy_language.Base.Bytes.{to_bytes, copy_to}
use toy_language.CompValues.CompInteger.{
  CompIntegerValue, is_negative, s64_value, shift_right_s, require_inlined,
}

-- The `memcpy` of the value, and the `memset` of the bytes past its eighth.
abbrev pub write_whole_bytes : ℤ → Bool → ℕ → List ℕ → List ℕ
write_whole_bytes v negative full_byte_size out =
    let copy_size = if ltb 8 full_byte_size then 8 else full_byte_size in
    let copied = copy_to out 0 (to_bytes copy_size (to_u w64 v)) in
    copy_to copied copy_size (replicate (full_byte_size - copy_size) (if negative then 0xff else 0))

-- The bits of a last byte that is not whole; the others in it are preserved.
abbrev pub write_partial_byte : ℤ → Bool → ℕ → List ℕ → List ℕ
write_partial_byte v negative bits out =
    let full_byte_size = bits / 8 in
    let update_mask = 2 ^ (bits % 8) - 1 in
    let updated_part =
      if ltb bits 64
      then bit_and (to_u w64 (shift_right_s v (full_byte_size * 8))) update_mask
      else if negative
      then update_mask
      else 0 in
    let preserved_part = bit_and (get_or out full_byte_size 0) (255 - update_mask) in
    if bits % 8 == 0 then out else set out full_byte_size (bit_or preserved_part updated_part)

unfoldable pub bits_from_comp_integer : CompIntegerValue → ℕ → Bool → List ℕ → Run (Bool × List ℕ)
bits_from_comp_integer value bits is_signed out = do
  require_inlined value
  let v = s64_value value
  let negative = is_negative value
  let used_bits = if negative then 2 ^ 64 - 1 - to_u w64 v else to_u w64 v
  returns (
      if not is_signed && negative
      then (false, out)
      else if ltb bits 64 && leb (2 ^ bits) used_bits
      then (false, out)
      else (true, write_partial_byte v negative bits (write_whole_bytes v negative (bits / 8) out)))
