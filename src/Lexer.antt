-- ===== src/Lexer.antt =====
-- The lexer of core/parse.cpp: what its functions share. The text from `parser.curr` on is the list
-- of its bytes; the terminating null, and whatever a read past it finds, reads as 0.
pub mod Trivia
pub mod Number
pub mod Character
pub mod Text
pub mod Tokens
pub mod TokenName
pub mod Next
use toy_language.Base.{
  leb, ◌==◌, if◌then◌else◌, Run, returns, panic, undefined, get_or, ℕ, ◌+◌, ◌-◌, Bool, ◌&&◌, ◌||◌,
  List, ◌∷◌, [],
}

-- The errors of `CompileError` that the lexer reports.
pub data CompileError : Type 0 where
  lex_unexpected_character : CompileError
  lex_null_character : CompileError
  lex_comment_mismatched_begin : CompileError
  lex_comment_mismatched_end : CompileError
  lex_builtin_unknown : CompileError
  lex_number_with_base_missing_digits : CompileError
  lex_number_unexpected_character_after_decimal_point : CompileError
  lex_number_unexpected_character_after_integer : CompileError
  lex_number_unexpected_character_after_float : CompileError
  lex_number_float_too_large : CompileError
  lex_character_bad_surrogate_code_unit : CompileError
  lex_character_bad_lead_code_unit : CompileError
  lex_character_escape_sequence_lower_x_bad_char : CompileError
  lex_character_escape_sequence_upper_x_invalid_char : CompileError
  lex_character_escape_sequence_upper_x_codepoint_too_large : CompileError
  lex_character_escape_sequence_u_invalid_char : CompileError
  lex_character_escape_sequence_unknown : CompileError
  lex_character_expected_end : CompileError
  lex_string_too_long : CompileError
  lex_string_crosses_newline : CompileError
  lex_string_missing_end : CompileError
  lex_identifier_initial_underscore : CompileError

-- How a scan ends: with a result and the text after it, in `parse_error_fatal`, in `panic`, in
-- behaviour that the language leaves undefined, or not within its fuel.
pub data Scan {ℓ} (A : Type ℓ) : Type ℓ where
  scanned : A → List ℕ → Scan A
  fatal : CompileError → Scan A
  panicked : Scan A
  unspecified : Scan A
  unfinished : Scan A

abbrev pub bind {ℓ κ} : {A : Type ℓ} {B : Type κ} → Scan A → (A → List ℕ → Scan B) → Scan B
bind (scanned a rest) f = f a rest
bind (fatal e) f = fatal e
bind panicked f = panicked
bind unspecified f = unspecified
bind unfinished f = unfinished

-- A run of code that is not part of the lexer; `rest` is the text after it.
abbrev pub lift {ℓ} : {A : Type ℓ} → Run A → List ℕ → Scan A
lift (returns a) rest = scanned a rest
lift panic rest = panicked
lift undefined rest = unspecified

-- `curr[index]`.
abbrev pub char_at : List ℕ → ℕ → ℕ
char_at curr index = get_or curr index 0

unfoldable pub is_whitespace : ℕ → Bool
is_whitespace c = c == b' ' || c == 9 || c == 10 || c == 13

unfoldable pub is_alphabetic_char : ℕ → Bool
is_alphabetic_char c = leb b'a' c && leb c b'z' || leb b'A' c && leb c b'Z'

unfoldable pub is_numeric_char : ℕ → Bool
is_numeric_char c = leb b'0' c && leb c b'9'

unfoldable pub is_identifier_continuation_char : ℕ → Bool
unfolding is_alphabetic_char is_numeric_char
is_identifier_continuation_char c = is_alphabetic_char c || is_numeric_char c || c == b'_'

abbrev pub invalid_hex_char_value : ℕ
invalid_hex_char_value = 255

unfoldable pub hex_char_value : ℕ → ℕ
hex_char_value c =
    if leb b'a' c && leb c b'f'
    then 10 + c - b'a'
    else if leb b'A' c && leb c b'F'
    then 10 + c - b'A'
    else if leb b'0' c && leb c b'9'
    then c - b'0'
    else invalid_hex_char_value

-- `while (test(*curr)) curr += 1;`
unfoldable pub skip_while : (ℕ → Bool) → List ℕ → List ℕ
skip_while test [] = []
skip_while test (c ∷ curr) = let rest = skip_while test curr in if test c then rest else c ∷ curr
