-- ===== src/Lexer/Number.antt =====
-- Number literals: `scan_number_token_with_base` and `scan_number_token` of core/parse.cpp.
pub mod Digits
pub mod Literal
use toy_language.Base.{
  ◌>>=◌, leb, ◌==◌, if◌then◌else◌, Run, length, take, drop, ℕ, ◌+◌, ◌-◌, Bool, ◌&&◌, ◌||◌, not,
  Option, none, some, List, ◌∷◌, [],
}
use toy_language.CompValues.CompInteger.{
  CompIntegerValue, comp_integer_from_u64, comp_integer_add, comp_integer_mul,
}
use toy_language.Lexer.{
  lex_number_with_base_missing_digits, lex_number_unexpected_character_after_integer,
  lex_number_unexpected_character_after_decimal_point, lex_number_unexpected_character_after_float,
  lex_number_float_too_large, Scan, scanned, fatal, bind, lift, char_at, is_alphabetic_char,
  is_numeric_char, is_identifier_continuation_char, invalid_hex_char_value, hex_char_value,
  skip_while,
}

-- The value of a character that is a digit.
unfoldable pub binary_digit : ℕ → Option ℕ
binary_digit c = if c == b'0' || c == b'1' then some (c - b'0') else none

unfoldable pub octal_digit : ℕ → Option ℕ
octal_digit c = if leb b'0' c && leb c b'7' then some (c - b'0') else none

unfoldable pub decimal_digit : ℕ → Option ℕ
unfolding is_numeric_char
decimal_digit c = if is_numeric_char c then some (c - b'0') else none

unfoldable pub hexadecimal_digit : ℕ → Option ℕ
unfolding hex_char_value
hexadecimal_digit c =
    let hex = hex_char_value c in if hex == invalid_hex_char_value then none else some hex

-- `comp_integer_add(comp_integer_mul(value, comp_integer_from_u64(factor)), comp_integer_from_u64(d))`.
unfoldable pub add_digit : ℕ → CompIntegerValue → ℕ → Run CompIntegerValue
unfolding comp_integer_from_u64 comp_integer_mul comp_integer_add
add_digit factor value d = do
  base ← comp_integer_from_u64 factor
  product ← comp_integer_mul value base
  digit ← comp_integer_from_u64 d
  comp_integer_add product digit

-- The loops over digits: `digit` is the test of the loop, `factor` what it multiplies by.
unfoldable pub digit_loop : (ℕ → Option ℕ) → ℕ → List ℕ → CompIntegerValue → Scan CompIntegerValue
unfolding add_digit
digit_loop digit factor [] value = scanned value []
digit_loop digit factor (c ∷ curr) value = elim (digit c) [
  | none ↦ scanned value (c ∷ curr)
  | some d ↦
      bind (lift (add_digit factor value d) curr) (λ next rest. digit_loop digit factor curr next)
]

-- The three loops of `scan_number_token_with_base`. The one for `b` multiplies by ten.
unfoldable pub based_loop : ℕ → List ℕ → CompIntegerValue → Scan CompIntegerValue
unfolding digit_loop binary_digit octal_digit hexadecimal_digit
based_loop base curr value =
    if base == b'b'
    then digit_loop binary_digit 10 curr value
    else if base == b'o'
    then digit_loop octal_digit 8 curr value
    else digit_loop hexadecimal_digit 16 curr value

-- The tests after the loop, which began at `begin`.
abbrev pub finish_based : List ℕ → CompIntegerValue → List ℕ → Scan CompIntegerValue
finish_based begin value curr =
    if length curr == length begin
    then fatal lex_number_with_base_missing_digits
    else if is_identifier_continuation_char (char_at curr 0)
    then fatal lex_number_unexpected_character_after_integer
    else scanned value curr

-- `curr` stands at the letter of the base.
unfoldable pub scan_number_token_with_base : ℕ → List ℕ → Scan CompIntegerValue
unfolding based_loop is_identifier_continuation_char
scan_number_token_with_base base curr =
    let begin = drop 1 curr in
    bind (lift (comp_integer_from_u64 0) begin)
      (λ start _. bind (based_loop base begin start) (finish_based begin))

abbrev pub ends_badly : ℕ → Bool
ends_badly c = is_alphabetic_char c || c == b'_'

-- What stands behind the digits after the point: an exponent, if there is one.
unfoldable pub skip_exponent : List ℕ → List ℕ
unfolding skip_while is_numeric_char
skip_exponent curr =
    let sign = drop 1 curr in
    let digits = if char_at sign 0 == b'+' || char_at sign 0 == b'-' then drop 1 sign else sign in
    if char_at curr 0 == b'e' then skip_while is_numeric_char digits else curr

pub data NumberLiteral {ℓ} (Float : Type ℓ) : Type ℓ where
  integer_value : CompIntegerValue → NumberLiteral Float
  float_value : Float → NumberLiteral Float

-- `strtod` of the C library; `none` is a result with `errno == ERANGE`.
module _ {ℓ} {Float : Type ℓ} (strtod : List ℕ → Option Float) where
  abbrev pub finish_float : List ℕ → Option Float → Scan (NumberLiteral Float)
  finish_float curr none = fatal lex_number_float_too_large
  finish_float curr (some value) = scanned (float_value value) curr

  -- The branch for a point; `token` is the text from the first digit, `curr` stands at the point.
  unfoldable pub scan_fraction : List ℕ → List ℕ → Scan (NumberLiteral Float)
  unfolding skip_exponent is_alphabetic_char
  scan_fraction token curr =
      let end = skip_exponent (skip_while is_numeric_char (drop 1 curr)) in
      if not (is_numeric_char (char_at curr 1))
      then fatal lex_number_unexpected_character_after_decimal_point
      else if ends_badly (char_at end 0)
      then fatal lex_number_unexpected_character_after_float
      else finish_float end (strtod (take (length token - length end) token))

  abbrev pub finish_number : List ℕ → CompIntegerValue → List ℕ → Scan (NumberLiteral Float)
  finish_number token value curr =
      if char_at curr 0 == b'.' && not (char_at curr 1 == b'.')
      then scan_fraction token curr
      else if ends_badly (char_at curr 0)
      then fatal lex_number_unexpected_character_after_float
      else scanned (integer_value value) curr

  -- `curr` stands behind `first`.
  unfoldable pub scan_number_token : ℕ → List ℕ → Scan (NumberLiteral Float)
  unfolding scan_fraction digit_loop decimal_digit is_alphabetic_char
  scan_number_token first curr =
      bind (lift (comp_integer_from_u64 (first - b'0')) curr)
        (λ start _. bind (digit_loop decimal_digit 10 curr start) (finish_number (first ∷ curr)))
