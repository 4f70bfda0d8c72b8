-- ===== src/Lexer/Text/Plain.antt =====
-- String literals with and without escapes, in core/parse.cpp.
use toy_language.Base.{
  ltb, leb, ◌==◌, if◌then◌else◌, length, take, length-append, ℕ, zero, suc, ◌+◌, ◌-◌, ◌≤◌, ◌<◌, ◌≡◌,
  refl, ap, ◌∙◌, ◌≢◌, Bool, true, false, some, List, [], ◌∷◌, ◌++◌, arith,
}
use native.Mathlib.Nat.{zero-add}
use toy_language.Lexer.{scanned, fatal, unspecified, bind, lex_string_too_long}
use toy_language.Lexer.Character.{simple_escape, scan_escape_char}
use toy_language.Lexer.Text.{
  CopyBegin, in_text, in_buffer, append_bytes, copy_text, encode_codepoint, string_loop,
  scan_string_token,
}

-- A byte that stands for itself in a string literal.
abbrev pub IsPlain : ℕ → Type 0
IsPlain c = (c ≢ 34) × (c ≢ 92) × (c ≢ 10) × (c ≢ 0)

abbrev pub ArePlain : List ℕ → Type 0
ArePlain [] = Unit {0}
ArePlain (c ∷ cs) = IsPlain c × ArePlain cs

step-plain :
    (fuel c : ℕ) (copy_begin : CopyBegin) (curr buffer : List ℕ)
    → IsPlain c
    → string_loop (suc fuel) copy_begin (c ∷ curr) buffer ≡ string_loop fuel copy_begin curr buffer
unfolding string_loop
step-plain fuel c copy_begin curr buffer (h, k, l, m) =
    let quote : (c == 34) ≡ false = ground arith in
    let escape : (c == 92) ≡ false = ground arith in
    let newline : (c == 10) ≡ false = ground arith in
    let null : (c == 0) ≡ false = ground arith in rw (quote, escape, newline, null) refl

-- The loop passes over plain bytes.
loop-plain :
    (bytes : List ℕ) (fuel : ℕ) (copy_begin : CopyBegin) (curr buffer : List ℕ)
    → ArePlain bytes
    → length bytes ≤ fuel
    → string_loop fuel copy_begin (bytes ++ curr) buffer
      ≡ string_loop (fuel - length bytes) copy_begin curr buffer
loop-plain [] fuel copy_begin curr buffer h k =
    ap (λ n. string_loop n copy_begin curr buffer) (let e : fuel ≡ fuel - 0 = omega arith in e)
loop-plain (c ∷ bytes) zero copy_begin curr buffer h k = absurd (omega arith)
loop-plain (c ∷ bytes) (suc fuel) copy_begin curr buffer (h, t) k =
    step-plain fuel c copy_begin (bytes ++ curr) buffer h
    ∙ loop-plain bytes fuel copy_begin curr buffer t (omega arith)
    ∙ ap (λ n. string_loop n copy_begin curr buffer) (omega arith)

take-append : (xs ys : List ℕ) → take (length xs) (xs ++ ys) ≡ xs
take-append [] ys = refl
take-append (x ∷ xs) ys = ap (λ t. x ∷ t) (take-append xs ys)

copied :
    (xs ys buffer : List ℕ) → copy_text (in_text (xs ++ ys)) ys buffer ≡ append_bytes buffer xs ys
unfolding copy_text
copied xs ys buffer =
    let size : length xs + length ys - length ys ≡ length xs = omega arith in
    rw (length-append xs ys, size, take-append xs ys) refl

at_quote :
    (fuel : ℕ) (copy_begin : CopyBegin) (curr buffer : List ℕ)
    → string_loop (suc fuel) copy_begin (34 ∷ curr) buffer
      ≡ bind (copy_text copy_begin (34 ∷ curr) buffer) (λ bytes _. scanned bytes curr)
unfolding string_loop
at_quote fuel copy_begin curr buffer = refl

-- The loop on plain bytes and a quote.
to_quote :
    (bytes : List ℕ) (fuel : ℕ) (copy_begin : CopyBegin) (rest buffer : List ℕ)
    → ArePlain bytes
    → length bytes < fuel
    → string_loop fuel copy_begin (bytes ++ (34 ∷ rest)) buffer
      ≡ bind (copy_text copy_begin (34 ∷ rest) buffer) (λ found _. scanned found rest)
to_quote bytes fuel copy_begin rest buffer h k =
    loop-plain bytes fuel copy_begin (34 ∷ rest) buffer h (omega arith)
    ∙ ap (λ n. string_loop n copy_begin (34 ∷ rest) buffer)
        (let e : fuel - length bytes ≡ suc (fuel - length bytes - 1) = omega arith in e)
    ∙ at_quote (fuel - length bytes - 1) copy_begin rest buffer

-- A literal of plain bytes is those bytes if they are at most 4096, and an error if not.
pub scan_string_token-plain :
    (bytes rest : List ℕ)
    → ArePlain bytes
    → scan_string_token (bytes ++ (34 ∷ rest))
      ≡ (if ltb 4096 (length bytes) then fatal lex_string_too_long else scanned bytes rest)
unfolding scan_string_token
scan_string_token-plain bytes rest h =
    to_quote bytes (suc (length (bytes ++ (34 ∷ rest)))) (in_text (bytes ++ (34 ∷ rest))) rest [] h
      (omega (arith, length-append bytes (34 ∷ rest)))
    ∙ rw (copied bytes (34 ∷ rest) [], zero-add (length bytes))
        (by_length (ltb 4096 (length bytes)))
  where
    by_length :
        (long : Bool)
        → bind
            (if long then fatal lex_string_too_long else scanned bytes (34 ∷ rest))
            (λ found _. scanned found rest)
          ≡ (if long then fatal lex_string_too_long else scanned bytes rest)
    by_length true = refl
    by_length false = refl

simple_escape-lt : (c codepoint : ℕ) → simple_escape c ≡ some codepoint → leb codepoint 0x7f ≡ true
unfolding simple_escape
simple_escape-lt c codepoint h = ground arith

scan_simple :
    (c codepoint : ℕ) (curr : List ℕ)
    → simple_escape c ≡ some codepoint
    → scan_escape_char (92 ∷ c ∷ curr) ≡ scanned codepoint curr
unfolding scan_escape_char
scan_simple c codepoint curr h =
    let x : (c == b'x') ≡ false = unfold simple_escape in ground arith in
    let upper_x : (c == b'X') ≡ false = unfold simple_escape in ground arith in
    let u : (c == b'u') ≡ false = unfold simple_escape in ground arith in rw (x, upper_x, u, h) refl

at_escape :
    (fuel c codepoint : ℕ) (before curr : List ℕ)
    → simple_escape c ≡ some codepoint
    → length before < 4096
    → string_loop (suc fuel) (in_text (before ++ (92 ∷ c ∷ curr))) (92 ∷ c ∷ curr) []
      ≡ string_loop fuel in_buffer curr (before ++ (codepoint ∷ []))
unfolding string_loop encode_codepoint
at_escape fuel c codepoint before curr h k =
    let short : ltb 4096 (length before) ≡ false = ground arith in
    let one : ltb 4096 (length before + 1) ≡ false = ground arith in
    rw
      (
        copied before (92 ∷ c ∷ curr) [],
        zero-add (length before),
        short,
        scan_simple c codepoint curr h,
        simple_escape-lt c codepoint h,
        one,
      )
      refl

-- A literal with one escape of one character between plain bytes, of which there are fewer than 4096
-- before it, runs into undefined behaviour at its end: the start of the bytes that it would copy
-- points into the buffer.
pub scan_string_token-escape :
    (before after rest : List ℕ) (c codepoint : ℕ)
    → ArePlain before
    → ArePlain after
    → simple_escape c ≡ some codepoint
    → length before < 4096
    → scan_string_token (before ++ (92 ∷ c ∷ after ++ (34 ∷ rest))) ≡ unspecified
unfolding scan_string_token
scan_string_token-escape before after rest c codepoint h k e small =
    let literal = after ++ (34 ∷ rest) in
    let size : length (before ++ (92 ∷ c ∷ literal))
        ≡ length before + suc (suc (length after + suc (length rest))) =
      length-append before (92 ∷ c ∷ literal)
      ∙ ap (λ n. length before + suc (suc n)) (length-append after (34 ∷ rest)) in
    let fuel = suc (length after + suc (length rest)) in
    loop-plain before (suc (length (before ++ (92 ∷ c ∷ literal))))
      (in_text (before ++ (92 ∷ c ∷ literal))) (92 ∷ c ∷ literal) [] h (omega (arith, size))
    ∙ ap (λ n. string_loop n (in_text (before ++ (92 ∷ c ∷ literal))) (92 ∷ c ∷ literal) [])
        (let e : suc (length (before ++ (92 ∷ c ∷ literal))) - length before ≡ suc (suc fuel) =
            omega (arith, size) in
          e)
    ∙ at_escape (suc fuel) c codepoint before literal e small
    ∙ to_quote after (suc fuel) in_buffer rest (before ++ (codepoint ∷ [])) k (omega arith)
    ∙ unfold copy_text in refl
