-- ===== src/Lexer/Number/Literal.antt =====
-- Whole integer literals, of core/parse.cpp.
use toy_language.Base.{
  ◌==◌, returns, length, length-append, pos, ℕ, ◌-◌, ◌^◌, ◌≤◌, ◌<◌, ◌≡◌, refl, false, Option, some,
  List, ◌∷◌, ◌++◌, arith,
}
use toy_language.CompValues.CompInteger.{CompIntegerValue, comp_integer_max, comp_integer_from_u64}
use toy_language.CompValues.CompInteger.Value.{Represents}
use toy_language.CompValues.CompInteger.Convert.{comp_integer_from_u64-Computes}
use toy_language.Lexer.{
  Scan, scanned, panicked, bind, char_at, is_numeric_char, is_identifier_continuation_char,
}
use toy_language.Lexer.Number.{
  NumberLiteral, integer_value, binary_digit, octal_digit, decimal_digit, hexadecimal_digit,
  digit_loop, based_loop, finish_based, ends_badly, finish_number, scan_number_token,
  scan_number_token_with_base,
}
use toy_language.Lexer.Number.Digits.{
  horner, AreDigits, EndsDigits, ScansNumber, digit_loop-ScansNumber,
}

-- A scan of an integer literal with the value `v` that stops at `rest`, or panics if the value is
-- not supported.
pub record ScansLiteral {ℓ} {Float : Type ℓ} (v : ℕ) (rest : List ℕ)
    (scan : Scan (NumberLiteral Float)) : Type ℓ where
  pub supported :
      v ≤ comp_integer_max
      → (r : CompIntegerValue) × (scan ≡ scanned (integer_value r) rest) × Represents (pos v) r
  pub unsupported : comp_integer_max < v → scan ≡ panicked

-- The text does not go on in a way that would change the literal.
pub record EndsLiteral (rest : List ℕ) : Type 0 where
  pub digits : EndsDigits decimal_digit rest
  pub point : (char_at rest 0 == b'.') ≡ false
  pub letters : ends_badly (char_at rest 0) ≡ false

finish-ScansLiteral {ℓ} :
    {Float : Type ℓ} (strtod : List ℕ → Option Float) (token : List ℕ) (v : ℕ) (rest : List ℕ)
    (scan : Scan CompIntegerValue)
    → EndsLiteral rest
    → ScansNumber v rest scan
    → ScansLiteral v rest (bind scan (finish_number strtod token))
finish-ScansLiteral strtod token v rest scan end s = record {
  supported = λ h. let (r, e, q) = s.supported h in (r, rw (e, end.point, end.letters) refl, q);
  unsupported = λ h. rw (s.unsupported h) refl;
}

start :
    (d : ℕ)
    → d < 2 ^ 16
    → (c : CompIntegerValue) × (comp_integer_from_u64 d ≡ returns c) × Represents (pos d) c
start d h = (comp_integer_from_u64-Computes d (omega arith)).supported (ground arith)

decimal_digit-some : (x d : ℕ) → decimal_digit x ≡ some d → x - b'0' ≡ d
unfolding decimal_digit is_numeric_char
decimal_digit-some x d h = ground arith

-- `scan_number_token` of decimal digits, before a text that does not go on the literal, gives the
-- number that they write, and panics if that is not supported.
pub scan_number_token-ScansLiteral {ℓ} :
    {Float : Type ℓ} (strtod : List ℕ → Option Float) (first d : ℕ) (cs ds rest : List ℕ)
    → AreDigits decimal_digit (first ∷ cs) (d ∷ ds)
    → EndsLiteral rest
    → ScansLiteral (horner 10 d ds) rest (scan_number_token strtod first (cs ++ rest))
unfolding scan_number_token
scan_number_token-ScansLiteral strtod first d cs ds rest (h, small, t) end =
    let (c, e, r) = start d small in
    rw (decimal_digit-some first d h, e)
      (finish-ScansLiteral strtod (first ∷ cs ++ rest) (horner 10 d ds) rest _ end (
        digit_loop-ScansNumber decimal_digit 10 d cs ds rest c (omega arith) (omega arith) t
          end.digits r))

-- The bases of `scan_number_token_with_base`, with their letter, their digits and what the code
-- multiplies by.
pub data Base : Type 0 where
  binary octal hexadecimal : Base

abbrev pub letter : Base → ℕ
letter binary = b'b'
letter octal = b'o'
letter hexadecimal = b'x'

abbrev pub base_digit : Base → ℕ → Option ℕ
base_digit binary = binary_digit
base_digit octal = octal_digit
base_digit hexadecimal = hexadecimal_digit

abbrev pub factor : Base → ℕ
factor binary = 10
factor octal = 8
factor hexadecimal = 16

based_loop-eq :
    (base : Base) (curr : List ℕ) (c : CompIntegerValue)
    → based_loop (letter base) curr c ≡ digit_loop (base_digit base) (factor base) curr c
unfolding based_loop
based_loop-eq binary curr c = refl
based_loop-eq octal curr c = refl
based_loop-eq hexadecimal curr c = refl

factor_range : (base : Base) → (0 < factor base) × (factor base < 2 ^ 16)
factor_range binary = (omega arith, omega arith)
factor_range octal = (omega arith, omega arith)
factor_range hexadecimal = (omega arith, omega arith)

finish-ScansNumber :
    (v : ℕ) (x : ℕ) (cs rest : List ℕ) (scan : Scan CompIntegerValue)
    → is_identifier_continuation_char (char_at rest 0) ≡ false
    → ScansNumber v rest scan
    → ScansNumber v rest (bind scan (finish_based (x ∷ cs ++ rest)))
finish-ScansNumber v x cs rest scan end s =
    let longer : (length rest == length (x ∷ cs ++ rest)) ≡ false =
      rw (length-append cs rest) (ground arith) in
    record {
      supported = λ h. let (r, e, q) = s.supported h in (r, rw (e, longer, end) refl, q);
      unsupported = λ h. rw (s.unsupported h) refl;
    }

-- `scan_number_token_with_base` of digits of the base, at least one, before a text that does not go
-- on as an identifier would, gives the number that they write in base 8 or 16, and panics if that is
-- not supported. Binary digits it reads as if they were decimal ones.
pub scan_number_token_with_base-ScansNumber :
    (base : Base) (x : ℕ) (cs ds rest : List ℕ)
    → AreDigits (base_digit base) (x ∷ cs) ds
    → EndsDigits (base_digit base) rest
    → is_identifier_continuation_char (char_at rest 0) ≡ false
    → ScansNumber
        (horner (factor base) 0 ds)
        rest
        (scan_number_token_with_base (letter base) (letter base ∷ x ∷ cs ++ rest))
unfolding scan_number_token_with_base
scan_number_token_with_base-ScansNumber base x cs ds rest t end last =
    let nought : Represents (pos 0) (record { rep = 0 }) = ground arith in
    let (low, high) = factor_range base in
    rw (based_loop-eq base (x ∷ cs ++ rest) (record { rep = 0 })) (
      finish-ScansNumber (horner (factor base) 0 ds) x cs rest _ last (
        digit_loop-ScansNumber (base_digit base) (factor base) 0 (x ∷ cs) ds rest
          (record { rep = 0 }) low high t end nought))
