-- ===== src/Tests/Bitwise.antt =====
-- core/comp_values.cpp, the operations on byte arrays at concrete operands.
use toy_language.Base.{
  Returns, w8, w16, bits, ◌-◌, ◌%◌, ◌^◌, ◌≡◌, refl, ◌≢◌, ◌↔◌, inl, true, false, [], ◌∷◌, arith,
}
use toy_language.Base.Bytes.{from_bytes}
use toy_language.CompValues.Bitwise.{add, sub, bitwise_binary_arithmetic_op, bitwise_neg}
use toy_language.CompValues.Bitwise.Arithmetic.{exact, value_of, Stores}
use toy_language.CompValues.Bitwise.Exact.{bitwise_signed-Stores, bitwise_unsigned-Stores}
use toy_language.CompValues.Bitwise.Complement.{bitwise_neg-negates}

-- 384 + (-1) in 16 bits.
bitwise_signed-Stores_example :
    Stores true w16
      (0 ∷ 0 ∷ [])
      (exact add (value_of true w16 (128 ∷ 1 ∷ [])) (value_of true w16 (255 ∷ 255 ∷ [])))
      (bitwise_binary_arithmetic_op add
        (bits w16)
        true
        (0 ∷ 0 ∷ [])
        (128 ∷ 1 ∷ [])
        (255 ∷ 255 ∷ []))
bitwise_signed-Stores_example =
    bitwise_signed-Stores add w16 (0 ∷ 0 ∷ []) (128 ∷ 1 ∷ []) (255 ∷ 255 ∷ []) refl (inl (cc))

-- 3 - 5 in 8 bits.
bitwise_unsigned-Stores_example :
    Stores false w8
      (9 ∷ [])
      (exact sub (value_of false w8 (3 ∷ [])) (value_of false w8 (5 ∷ [])))
      (bitwise_binary_arithmetic_op sub (bits w8) false (9 ∷ []) (3 ∷ []) (5 ∷ []))
bitwise_unsigned-Stores_example =
    bitwise_unsigned-Stores sub w8 (9 ∷ []) (3 ∷ []) (5 ∷ []) refl ((omega arith, tt), refl)
      ((omega arith, tt), refl)

bitwise_neg-negates_example : Returns (bitwise_neg 8 (0 ∷ []) (128 ∷ [])) (λ r.
    (from_bytes r.1 ≡ (256 ^ 1 - from_bytes (128 ∷ [])) % 256 ^ 1)
    × ((r.0 ≡ true) ↔ (from_bytes (128 ∷ []) ≢ 0)))
bitwise_neg-negates_example =
    bitwise_neg-negates (0 ∷ []) (128 ∷ []) refl (omega arith, tt) (omega arith, tt)
