-- ===== src/Lexer/Text.antt =====
-- String literals: `scan_string_token` of core/parse.cpp, up to the bytes of the literal. What comes
-- after, the allocation of the bytes and the interning of their type, is not part of the lexer.
pub mod Plain
use toy_language.Base.{
  ltb, leb, ◌==◌, if◌then◌else◌, length, take, drop, ℕ, zero, suc, ◌+◌, ◌-◌, ◌/◌, ◌%◌, ◌^◌, bit_and,
  bit_or, List, ◌∷◌, ◌++◌, [],
}
use toy_language.Lexer.{
  lex_string_too_long, lex_string_crosses_newline, lex_string_missing_end, Scan, scanned, fatal,
  unspecified, unfinished, bind, char_at,
}
use toy_language.Lexer.Character.{scan_escape_char}

abbrev pub max_string_literal_bytes : ℕ
max_string_literal_bytes = 4096

-- Where `copy_begin` points: at a place in the text, or, after an escape, into `buffer`.
pub data CopyBegin : Type 0 where
  in_text : List ℕ → CopyBegin
  in_buffer : CopyBegin

-- The bytes that an escape appends for its code point.
unfoldable pub encode_codepoint : ℕ → List ℕ
encode_codepoint codepoint =
    if leb codepoint 0x7f
    then codepoint ∷ []
    else if leb codepoint 0x7ff
    then bit_or (codepoint / 2 ^ 6) 0xc0 % 256 ∷ bit_or (bit_and codepoint 0x3f) 0x80 ∷ []
    else if codepoint == 0x10000
    then bit_or (codepoint / 2 ^ 12) 0xe0 % 256
      ∷ bit_or (bit_and (codepoint / 2 ^ 6) 0x3f) 0x80
      ∷ bit_or (bit_and codepoint 0x3f) 0x80
      ∷ []
    else bit_or (codepoint / 2 ^ 18) 0xe0 % 256
      ∷ bit_or (bit_and (codepoint / 2 ^ 12) 0x3f) 0x80
      ∷ bit_or (bit_and (codepoint / 2 ^ 6) 0x3f) 0x80
      ∷ bit_or (bit_and codepoint 0x3f) 0x80
      ∷ []

-- An append to `buffer`, unless it would be too long.
abbrev pub append_bytes : List ℕ → List ℕ → List ℕ → Scan (List ℕ)
append_bytes buffer bytes curr =
    if ltb max_string_literal_bytes (length buffer + length bytes)
    then fatal lex_string_too_long
    else scanned (buffer ++ bytes) curr

-- The copy of the bytes from `copy_begin` up to `curr`. The difference of pointers into different
-- arrays is undefined.
unfoldable pub copy_text : CopyBegin → List ℕ → List ℕ → Scan (List ℕ)
copy_text (in_text begin) curr buffer =
    append_bytes buffer (take (length begin - length curr) begin) curr
copy_text in_buffer curr buffer = unspecified

abbrev pub append_escape : List ℕ → ℕ → List ℕ → Scan (List ℕ)
append_escape buffer codepoint curr = append_bytes buffer (encode_codepoint codepoint) curr

-- The loop of `scan_string_token`, with fuel.
unfoldable pub string_loop : ℕ → CopyBegin → List ℕ → List ℕ → Scan (List ℕ)
unfolding copy_text encode_codepoint scan_escape_char
string_loop zero copy_begin curr buffer = unfinished
string_loop (suc fuel) copy_begin curr buffer =
    let c = char_at curr 0 in
    let escape = bind (copy_text copy_begin curr buffer) (λ copied _.
      bind (scan_escape_char curr) (λ codepoint rest.
        bind (append_escape copied codepoint rest)
          (λ longer _. string_loop fuel in_buffer rest longer))) in
    let step = string_loop fuel copy_begin (drop 1 curr) buffer in
    if c == 34
    then bind (copy_text copy_begin curr buffer) (λ bytes _. scanned bytes (drop 1 curr))
    else if c == 92
    then escape
    else if c == 10
    then fatal lex_string_crosses_newline
    else if c == 0
    then fatal lex_string_missing_end
    else step

-- A round takes at least one byte; `curr` stands behind the opening quote.
unfoldable pub scan_string_token : List ℕ → Scan (List ℕ)
unfolding string_loop
scan_string_token curr = string_loop (suc (length curr)) (in_text curr) curr []
