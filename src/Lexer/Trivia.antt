-- ===== src/Lexer/Trivia.antt =====
-- `skip_block_comment` and `skip_whitespace` of core/parse.cpp.
pub mod Comment
pub mod Skip
pub mod Ends
use toy_language.Base.{
  ◌==◌, if◌then◌else◌, length, drop, ℕ, zero, suc, ◌*◌, ◌/◌, Bool, ◌&&◌, not, List, ◌∷◌, [],
}
use toy_language.Lexer.{
  lex_null_character, Scan, scanned, fatal, unfinished, bind, char_at, is_whitespace, skip_while,
}

-- The loop of `skip_block_comment`. Which of two errors a null gives is tested on `parser.curr`, which
-- stands at the comment's `/*`, so it is always the one for a null within the text.
unfoldable pub comment_loop : List ℕ → ℕ → Scan (Unit {0})
comment_loop curr zero = scanned tt curr
comment_loop [] (suc nesting) = fatal lex_null_character
comment_loop (c ∷ []) (suc nesting) = fatal lex_null_character
comment_loop (c ∷ d ∷ curr) (suc nesting) =
    let open_more = comment_loop curr (suc (suc nesting)) in
    let close = comment_loop curr nesting in
    let step = comment_loop (d ∷ curr) (suc nesting) in
    if c == b'/'
    then if d == b'*' then open_more else step
    else if c == b'*'
    then if d == b'/' then close else step
    else if c == 0
    then fatal lex_null_character
    else step

unfoldable pub skip_block_comment : List ℕ → Scan (Unit {0})
unfolding comment_loop
skip_block_comment curr = comment_loop (drop 2 curr) 1

-- `*curr != '\n' && *curr != '\0'`.
abbrev pub in_line_comment : ℕ → Bool
in_line_comment c = not (c == 10) && not (c == 0)

-- The loop of `skip_whitespace`, with fuel.
unfoldable pub skip_loop : ℕ → List ℕ → Scan (Unit {0})
unfolding skip_while is_whitespace skip_block_comment
skip_loop zero curr = unfinished
skip_loop (suc fuel) curr =
    let at_token = skip_while is_whitespace curr in
    let after_line = skip_loop fuel (skip_while in_line_comment (drop 2 at_token)) in
    let after_block = bind (skip_block_comment at_token) (λ _ rest. skip_loop fuel rest) in
    if char_at at_token 0 == b'/'
    then if char_at at_token 1 == b'/'
      then after_line
      else if char_at at_token 1 == b'*'
      then after_block
      else scanned tt at_token
    else scanned tt at_token

-- A round takes at least two bytes.
unfoldable pub skip_whitespace : List ℕ → Scan (Unit {0})
unfolding skip_loop
skip_whitespace curr = skip_loop (suc (length curr)) curr
