-- ===== src/Lexer/Character.antt =====
-- Characters: `scan_utf8_char`, `scan_escape_char` and `scan_char_token` of core/parse.cpp.
pub mod Utf8
use toy_language.Base.{
  ltb, ◌==◌, if◌then◌else◌, drop, ℕ, zero, suc, ◌+◌, ◌-◌, ◌*◌, ◌%◌, ◌^◌, bit_and, bit_or, ◌||◌,
  Option, none, some, List,
}
use toy_language.Lexer.{
  lex_character_bad_surrogate_code_unit, lex_character_bad_lead_code_unit,
  lex_character_escape_sequence_lower_x_bad_char,
  lex_character_escape_sequence_upper_x_invalid_char,
  lex_character_escape_sequence_upper_x_codepoint_too_large,
  lex_character_escape_sequence_u_invalid_char, lex_character_escape_sequence_unknown,
  lex_character_expected_end, Scan, scanned, fatal, bind, char_at, is_numeric_char,
  invalid_hex_char_value, hex_char_value,
}

-- The loop of `scan_utf8_char_surrogates` at `i`, with `rounds` left; `none` is a bad code unit.
unfoldable pub surrogate_loop : ℕ → ℕ → List ℕ → ℕ → Option ℕ
surrogate_loop zero i curr codepoint = some codepoint
surrogate_loop (suc rounds) i curr codepoint =
    let surrogate = char_at curr (i + 1) in
    let rest =
      surrogate_loop rounds (i + 1) curr
        (bit_or codepoint (bit_and surrogate 0x3f * 2 ^ (6 * rounds) % 2 ^ 32)) in
    if bit_and surrogate 0xc0 == 0x80 then rest else none

abbrev pub finish_surrogates : ℕ → List ℕ → Option ℕ → Scan ℕ
finish_surrogates surrogate_count curr none = fatal lex_character_bad_surrogate_code_unit
finish_surrogates surrogate_count curr (some codepoint) =
    scanned codepoint (drop (surrogate_count + 1) curr)

unfoldable pub scan_utf8_char_surrogates : ℕ → ℕ → List ℕ → Scan ℕ
unfolding surrogate_loop
scan_utf8_char_surrogates leader_value surrogate_count curr =
    finish_surrogates surrogate_count curr (surrogate_loop surrogate_count 0 curr leader_value)

unfoldable pub scan_utf8_char : List ℕ → Scan ℕ
unfolding scan_utf8_char_surrogates
scan_utf8_char curr =
    let first = char_at curr 0 in
    if bit_and first 0x80 == 0
    then scanned first (drop 1 curr)
    else if bit_and first 0xe0 == 0xc0
    then scan_utf8_char_surrogates (bit_and first 0x1f * 2 ^ 6) 1 curr
    else if bit_and first 0xf0 == 0xe0
    then scan_utf8_char_surrogates (bit_and first 0x0f * 2 ^ 12) 2 curr
    else if bit_and first 0xf8 == 0xf0
    then scan_utf8_char_surrogates (bit_and first 0x07 * 2 ^ 18) 3 curr
    else fatal lex_character_bad_lead_code_unit

-- The loops over the digits of `\X` and `\u`, of six and of four rounds.
unfoldable pub hex_loop : ℕ → List ℕ → ℕ → Option ℕ
unfolding hex_char_value
hex_loop zero curr codepoint = some codepoint
hex_loop (suc rounds) curr codepoint =
    let char_value = hex_char_value (char_at curr 0) in
    let rest = hex_loop rounds (drop 1 curr) (codepoint * 16 + char_value) in
    if char_value == invalid_hex_char_value then none else rest

unfoldable pub decimal_loop : ℕ → List ℕ → ℕ → Option ℕ
unfolding is_numeric_char
decimal_loop zero curr codepoint = some codepoint
decimal_loop (suc rounds) curr codepoint =
    let c = char_at curr 0 in
    let rest = decimal_loop rounds (drop 1 curr) (codepoint * 10 + c - b'0') in
    if is_numeric_char c then rest else none

-- The three kinds of numeric escapes; `curr` stands at the backslash.
unfoldable pub scan_escape_lower_x : List ℕ → Scan ℕ
unfolding hex_char_value
scan_escape_lower_x curr =
    let hi = hex_char_value (char_at curr 2) in
    let lo = hex_char_value (char_at curr 3) in
    if hi == invalid_hex_char_value || lo == invalid_hex_char_value
    then fatal lex_character_escape_sequence_lower_x_bad_char
    else scanned (lo + hi * 16) (drop 4 curr)

abbrev pub finish_upper_x : List ℕ → Option ℕ → Scan ℕ
finish_upper_x curr none = fatal lex_character_escape_sequence_upper_x_invalid_char
finish_upper_x curr (some codepoint) =
    if ltb 0x10ffff codepoint
    then fatal lex_character_escape_sequence_upper_x_codepoint_too_large
    else scanned codepoint (drop 8 curr)

abbrev pub finish_u : List ℕ → Option ℕ → Scan ℕ
finish_u curr none = fatal lex_character_escape_sequence_u_invalid_char
finish_u curr (some codepoint) = scanned codepoint (drop 6 curr)

-- The escapes of one character.
unfoldable pub simple_escape : ℕ → Option ℕ
simple_escape escapee =
    if escapee == 92 || escapee == 39 || escapee == 34
    then some escapee
    else if escapee == b'0'
    then some 0
    else if escapee == b'a'
    then some 7
    else if escapee == b'b'
    then some 8
    else if escapee == b'f'
    then some 12
    else if escapee == b'n'
    then some 10
    else if escapee == b'r'
    then some 13
    else if escapee == b't'
    then some 9
    else if escapee == b'v'
    then some 11
    else none

abbrev pub finish_simple : List ℕ → Option ℕ → Scan ℕ
finish_simple curr none = fatal lex_character_escape_sequence_unknown
finish_simple curr (some codepoint) = scanned codepoint (drop 2 curr)

unfoldable pub scan_escape_char : List ℕ → Scan ℕ
unfolding scan_escape_lower_x hex_loop decimal_loop simple_escape
scan_escape_char curr =
    let escapee = char_at curr 1 in
    if escapee == b'x'
    then scan_escape_lower_x curr
    else if escapee == b'X'
    then finish_upper_x curr (hex_loop 6 (drop 2 curr) 0)
    else if escapee == b'u'
    then finish_u curr (decimal_loop 4 (drop 2 curr) 0)
    else finish_simple curr (simple_escape escapee)

abbrev pub expect_end : ℕ → List ℕ → Scan ℕ
expect_end codepoint curr =
    if char_at curr 0 == 39
    then scanned codepoint (drop 1 curr)
    else fatal lex_character_expected_end

-- `curr` stands behind the opening quote.
unfoldable pub scan_char_token : List ℕ → Scan ℕ
unfolding scan_escape_char scan_utf8_char
scan_char_token curr =
    if char_at curr 0 == 92
    then bind (scan_escape_char curr) expect_end
    else bind (scan_utf8_char curr) expect_end
