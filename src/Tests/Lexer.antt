-- ===== src/Tests/Lexer.antt =====
-- core/parse.cpp, the lexer at concrete texts.
use toy_language.Base.{
  some, inl, inr, length, ℕ, ◌≡◌, refl, false, Option, none, some, List, [], ◌∷◌, ◌++◌, arith,
}
use toy_language.Lexer.{
  scanned, unspecified, char_at, is_whitespace, is_numeric_char, is_alphabetic_char,
  is_identifier_continuation_char,
}
use toy_language.Lexer.Trivia.Ends.{EndsWithin, skip_whitespace-EndsWithin}
use toy_language.Lexer.Trivia.{skip_whitespace}
use toy_language.Lexer.Trivia.Comment.{done, then_char, then_nested}
use toy_language.Lexer.Trivia.Skip.{
  Trivia, blank, line_comment, block_comment, print_trivia, AreTrivia, skip_whitespace-print,
}
use toy_language.Lexer.Character.{scan_utf8_char, simple_escape}
use toy_language.Lexer.Character.Utf8.{encode_utf8, scan_utf8_char-encode_utf8}
use toy_language.Lexer.Number.{
  binary_digit, decimal_digit, scan_number_token, scan_number_token_with_base,
}
use toy_language.Lexer.Number.Digits.{AreDigits, EndsDigits, ScansNumber}
use toy_language.Lexer.Number.Literal.{
  ScansLiteral, EndsLiteral, scan_number_token-ScansLiteral, binary,
  scan_number_token_with_base-ScansNumber,
}
use toy_language.Lexer.Text.{scan_string_token}
use toy_language.Lexer.Text.Plain.{ArePlain, scan_string_token-plain, scan_string_token-escape}
use toy_language.Lexer.Next.{Surroundings, Parser, next}
use toy_language.Lexer.Next.Peek.{Foresees, peek-Foresees}
use toy_language.Lexer.Next.Spelling.{All, Scans, operators, operators-Scans}

-- A blank, a line comment, and a block comment with a lone slash that nests one.
abbrev some_trivia : List Trivia
some_trivia =
    blank 9
    ∷ line_comment (b'a' ∷ [])
    ∷ block_comment (then_char b'/' (then_char b'b' (then_nested (then_char b'c' done) done)))
    ∷ []

some_trivia-AreTrivia : AreTrivia some_trivia
unfolding is_whitespace
some_trivia-AreTrivia = (
  refl,
  (
    (refl, tt),
    (
      (
        ground arith,
        inr (ground arith),
        inl (ground arith),
        (
          ground arith,
          inl (ground arith),
          inl (ground arith),
          ((ground arith, inl (ground arith), inl (ground arith), tt), tt),
        ),
      ),
      tt,
    ),
  ),
)

skip_whitespace-print_example :
    skip_whitespace (print_trivia some_trivia ++ (b'/' ∷ b'/' ∷ b'd' ∷ 0 ∷ []))
    ≡ scanned tt (0 ∷ [])
skip_whitespace-print_example =
    skip_whitespace-print some_trivia (some (b'd' ∷ [])) (0 ∷ []) some_trivia-AreTrivia
      ((refl, tt), refl)

-- The code point of the euro sign.
scan_utf8_char-encode_utf8_example :
    scan_utf8_char (encode_utf8 0x20ac ++ (b'+' ∷ [])) ≡ scanned 0x20ac (b'+' ∷ [])
scan_utf8_char-encode_utf8_example = scan_utf8_char-encode_utf8 0x20ac (b'+' ∷ []) (omega arith)

no_strtod : List ℕ → Option ℕ
no_strtod token = none

two_digits : AreDigits decimal_digit (b'4' ∷ b'2' ∷ []) (4 ∷ 2 ∷ [])
unfolding decimal_digit is_numeric_char
two_digits = (refl, omega arith, (refl, omega arith, tt))

plus-EndsLiteral : EndsLiteral (b'+' ∷ [])
unfolding decimal_digit is_numeric_char is_alphabetic_char
plus-EndsLiteral = record { digits = refl; point = refl; letters = refl }

scan_number_token-ScansLiteral_example :
    ScansLiteral 42 (b'+' ∷ []) (scan_number_token no_strtod b'4' (b'2' ∷ b'+' ∷ []))
scan_number_token-ScansLiteral_example =
    scan_number_token-ScansLiteral no_strtod b'4' 4 (b'2' ∷ []) (2 ∷ []) (b'+' ∷ []) two_digits
      plus-EndsLiteral

two_bits : AreDigits binary_digit (b'1' ∷ b'0' ∷ []) (1 ∷ 0 ∷ [])
unfolding binary_digit
two_bits = (refl, omega arith, (refl, omega arith, tt))

plus-EndsDigits : EndsDigits binary_digit (b'+' ∷ [])
unfolding binary_digit
plus-EndsDigits = refl

plus_ends : is_identifier_continuation_char (char_at (b'+' ∷ []) 0) ≡ false
unfolding is_identifier_continuation_char is_alphabetic_char is_numeric_char
plus_ends = refl

-- `0b10` scans as ten.
scan_number_token_with_base-ScansNumber_example :
    ScansNumber 10 (b'+' ∷ []) (scan_number_token_with_base b'b' (b'b' ∷ b'1' ∷ b'0' ∷ b'+' ∷ []))
scan_number_token_with_base-ScansNumber_example =
    scan_number_token_with_base-ScansNumber binary b'1' (b'0' ∷ []) (1 ∷ 0 ∷ []) (b'+' ∷ [])
      two_bits plus-EndsDigits plus_ends

one_letter : ArePlain (b'a' ∷ [])
one_letter = ((ground arith, ground arith, ground arith, ground arith), tt)

scan_string_token-plain_example :
    scan_string_token (b'a' ∷ 34 ∷ b'+' ∷ []) ≡ scanned (b'a' ∷ []) (b'+' ∷ [])
scan_string_token-plain_example = scan_string_token-plain (b'a' ∷ []) (b'+' ∷ []) one_letter

newline_escape : simple_escape b'n' ≡ some 10
unfolding simple_escape
newline_escape = refl

-- A literal of the letter, a newline and the letter.
scan_string_token-escape_example :
    scan_string_token (b'a' ∷ 92 ∷ b'n' ∷ b'a' ∷ 34 ∷ b'+' ∷ []) ≡ unspecified
scan_string_token-escape_example =
    scan_string_token-escape (b'a' ∷ []) (b'a' ∷ []) (b'+' ∷ []) b'n' 10 one_letter one_letter
      newline_escape (omega arith)

abbrev pool : Surroundings ℕ
pool = record {
  identifier_id = length;
  attachment = λ bytes. 0;
  strtod = λ token. none;
  is_std = false;
}

-- Before ` ++`, with nothing peeked.
abbrev parser : Parser ℕ
parser = record { curr = b' ' ∷ b'+' ∷ b'+' ∷ []; size = 3; peek = none; source_id_base = 5 }

peek-Foresees_example : Foresees pool parser (next pool parser)
peek-Foresees_example = peek-Foresees pool parser

operators-Scans_example : All (Scans pool (b'a' ∷ [])) operators
operators-Scans_example = operators-Scans pool (b'a' ∷ [])

-- A block comment that is not closed.
skip_whitespace-EndsWithin_example :
    EndsWithin
      (b' ' ∷ b'/' ∷ b'/' ∷ b'a' ∷ 0 ∷ [])
      (skip_whitespace (b' ' ∷ b'/' ∷ b'/' ∷ b'a' ∷ 0 ∷ []))
skip_whitespace-EndsWithin_example = skip_whitespace-EndsWithin (b' ' ∷ b'/' ∷ b'/' ∷ b'a' ∷ 0 ∷ [])
