-- ===== src/Lexer/Next.antt =====
-- `scan_identifier_token`, `next_without_source`, `next`, `peek` and `skip` of
-- core/parse.cpp. The identifier pool is an argument: what it says of a text.
pub mod Peek
pub mod Spelling
use toy_language.Base.{
  ◌==◌, if◌then◌else◌, length, take, drop, ℕ, zero, suc, ◌+◌, ◌-◌, ◌*◌, ◌/◌, ◌%◌, ◌^◌, Bool, true,
  false, ◌&&◌, ◌||◌, Option, none, some, List, ◌∷◌, [],
}
use toy_language.Lexer.{
  lex_comment_mismatched_end, lex_null_character, lex_unexpected_character, lex_builtin_unknown,
  lex_identifier_initial_underscore, Scan, scanned, fatal, panicked, unspecified, unfinished, bind,
  char_at, is_alphabetic_char, is_numeric_char, is_identifier_continuation_char, skip_while,
}
use toy_language.Lexer.Trivia.{skip_whitespace}
use toy_language.Lexer.Number.{
  NumberLiteral, integer_value, scan_number_token, scan_number_token_with_base,
}
use toy_language.Lexer.Character.{scan_char_token}
use toy_language.Lexer.Text.{scan_string_token}
use toy_language.Lexer.Tokens.{Token, operator_token, wildcard_token, end_of_source}

-- A `Lexeme` without its source: its token, with the member of the union that goes with it. A name
-- with an attachment has that as its token.
pub data Lexeme {ℓ} (Float : Type ℓ) : Type ℓ where
  plain : Token → Lexeme Float
  number : NumberLiteral Float → Lexeme Float
  character : ℕ → Lexeme Float
  text : List ℕ → Lexeme Float
  identifier : ℕ → Lexeme Float
  keyword : ℕ → Lexeme Float
  builtin : ℕ → Lexeme Float

-- `id_and_attachment_from_identifier`, for a pool that does not change, and `strtod`.
pub record Surroundings {ℓ} (Float : Type ℓ) : Type ℓ where
  pub identifier_id : List ℕ → ℕ
  pub attachment : List ℕ → ℕ
  pub strtod : List ℕ → Option Float
  pub is_std : Bool

module _ {ℓ} {Float : Type ℓ} (around : Surroundings Float) where
  abbrev pub finish_identifier : Bool → List ℕ → List ℕ → Scan (Lexeme Float)
  finish_identifier is_builtin bytes curr =
      let attachment = around.attachment bytes in
      if is_builtin
      then (if attachment == 0
          then fatal lex_builtin_unknown
          else scanned (builtin attachment) curr)
      else if attachment == 0
      then scanned (identifier (around.identifier_id bytes)) curr
      else scanned (keyword attachment) curr

  -- `curr` stands behind `first`.
  unfoldable pub scan_identifier_token : Bool → ℕ → List ℕ → Scan (Lexeme Float)
  unfolding skip_while is_identifier_continuation_char
  scan_identifier_token is_builtin first curr =
      let end = skip_while is_identifier_continuation_char curr in
      finish_identifier is_builtin (take (suc (length curr) - length end) (first ∷ curr)) end

  abbrev pub scan_operator : Option (Token × ℕ) → List ℕ → Scan (Lexeme Float)
  scan_operator none curr = fatal lex_unexpected_character
  scan_operator (some (token, more)) curr = scanned (plain token) (drop more curr)

  -- The switch, with `first` and the text behind it.
  unfoldable pub next_after : ℕ → List ℕ → Scan (Lexeme Float)
  unfolding scan_identifier_token scan_number_token scan_number_token_with_base scan_char_token
      scan_string_token operator_token is_alphabetic_char is_numeric_char
  next_after first curr =
      let second = char_at curr 0 in
      if is_alphabetic_char first
      then scan_identifier_token false first curr
      else if first == b'0' && (second == b'b' || second == b'o' || second == b'x')
      then bind (scan_number_token_with_base second curr)
          (λ value rest. scanned (number (integer_value value)) rest)
      else if is_numeric_char first
      then bind (scan_number_token around.strtod first curr)
          (λ value rest. scanned (number value) rest)
      else if first == 39
      then bind (scan_char_token curr) (λ value rest. scanned (character value) rest)
      else if first == 34
      then bind (scan_string_token curr) (λ bytes rest. scanned (text bytes) rest)
      else if first == b'_'
      then (if is_identifier_continuation_char second
          then (if around.is_std
              then scan_identifier_token true first curr
              else fatal lex_identifier_initial_underscore)
          else scanned (plain wildcard_token) curr)
      else if first == b'*' && second == b'/'
      then fatal lex_comment_mismatched_end
      else if first == 0
      then fatal lex_null_character
      else scan_operator (operator_token first curr) curr

  -- The end of the list is the end of the source.
  unfoldable pub next_without_source : List ℕ → Scan (Lexeme Float)
  unfolding next_after
  next_without_source [] = scanned (plain end_of_source) []
  next_without_source (first ∷ curr) = next_after first curr

pub record SourceLexeme {ℓ} (Float : Type ℓ) : Type ℓ where
  pub lexeme : Lexeme Float
  pub source_id : ℕ

-- `Parser`, as far as the lexer uses it: `size` is `end - begin`, and `peek` is `none` where its
-- token is `EMPTY`.
pub record Parser {ℓ} (Float : Type ℓ) : Type ℓ where
  pub curr : List ℕ
  pub size : ℕ
  pub peek : Option (SourceLexeme Float)
  pub source_id_base : ℕ

-- How a call on the parser ends; `stopped` keeps what a scan ended in.
pub data Parsed {ℓ} (Float : Type ℓ) : Type ℓ where
  parsed : SourceLexeme Float → Parser Float → Parsed Float
  stopped : Scan (Unit {0}) → Parsed Float

module _ {ℓ} {Float : Type ℓ} (around : Surroundings Float) where
  abbrev pub to_parsed : Parser Float → ℕ → Scan (Lexeme Float) → Parsed Float
  to_parsed p source_id (scanned l rest) =
      parsed (record { lexeme = l; source_id = source_id }) (record p { curr = rest; peek = none })
  to_parsed p source_id (fatal e) = stopped (fatal e)
  to_parsed p source_id panicked = stopped panicked
  to_parsed p source_id unspecified = stopped unspecified
  to_parsed p source_id unfinished = stopped unfinished

  abbrev pub after_trivia : Parser Float → Scan (Unit {0}) → Parsed Float
  after_trivia p (scanned u curr) =
      to_parsed p ((p.source_id_base + (p.size - length curr)) % 2 ^ 32)
        (next_without_source around curr)
  after_trivia p (fatal e) = stopped (fatal e)
  after_trivia p panicked = stopped panicked
  after_trivia p unspecified = stopped unspecified
  after_trivia p unfinished = stopped unfinished

  abbrev pub next_from : Parser Float → Option (SourceLexeme Float) → Parsed Float
  next_from p (some l) = parsed l (record p { peek = none })
  next_from p none = after_trivia p (skip_whitespace p.curr)

  unfoldable pub next : Parser Float → Parsed Float
  unfolding next_without_source skip_whitespace
  next p = next_from p p.peek

  abbrev pub remember : Parsed Float → Parsed Float
  remember (parsed l p) = parsed l (record p { peek = some l })
  remember (stopped s) = stopped s

  abbrev pub peek_from : Parser Float → Option (SourceLexeme Float) → Parsed Float
  peek_from p (some l) = parsed l p
  peek_from p none = remember (next p)

  unfoldable pub peek : Parser Float → Parsed Float
  unfolding next
  peek p = peek_from p p.peek
