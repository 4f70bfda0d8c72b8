-- ===== src/Lexer/Trivia/Skip.antt =====
-- What `skip_whitespace` of core/parse.cpp passes over.
use toy_language.Base.{
  Option, none, some, ◌+◌, ◌==◌, if◌then◌else◌, length, drop, length-append, ℕ, zero, suc, ◌≤◌, ◌<◌,
  ◌≡◌, refl, ◌∙◌, Bool, true, false, ◌&&◌, List, [], ◌∷◌, ◌++◌, arith,
}
use mathlib.Core.List.{append_assoc}
use toy_language.Lexer.{scanned, bind, char_at, is_whitespace, skip_while}
use toy_language.Lexer.Trivia.Comment.{Comment, print_comment, IsComment, comment_loop-print}
use toy_language.Lexer.Trivia.{
  comment_loop, comment_loop, skip_block_comment, in_line_comment, skip_loop, skip_whitespace,
}

-- A piece of what stands between tokens.
pub data Trivia : Type 0 where
  blank : ℕ → Trivia
  line_comment : List ℕ → Trivia
  block_comment : Comment → Trivia

abbrev pub print_trivia : List Trivia → List ℕ
print_trivia [] = []
print_trivia (blank c ∷ pieces) = c ∷ print_trivia pieces
print_trivia (line_comment line ∷ pieces) = b'/' ∷ b'/' ∷ line ++ (10 ∷ print_trivia pieces)
print_trivia (block_comment k ∷ pieces) =
    b'/' ∷ b'*' ∷ print_comment k ++ (b'*' ∷ b'/' ∷ print_trivia pieces)

abbrev pub IsLine : List ℕ → Type 0
IsLine [] = Unit {0}
IsLine (c ∷ line) = (in_line_comment c ≡ true) × IsLine line

abbrev pub AreTrivia : List Trivia → Type 0
AreTrivia [] = Unit {0}
AreTrivia (blank c ∷ pieces) = (is_whitespace c ≡ true) × AreTrivia pieces
AreTrivia (line_comment line ∷ pieces) = IsLine line × AreTrivia pieces
AreTrivia (block_comment k ∷ pieces) = IsComment k × AreTrivia pieces

-- A text that begins with neither a blank nor a comment.
pub record StartsToken (rest : List ℕ) : Type 0 where
  pub no_blank : is_whitespace (char_at rest 0) ≡ false
  pub no_line : (char_at rest 0 == b'/') && (char_at rest 1 == b'/') ≡ false
  pub no_block : (char_at rest 0 == b'/') && (char_at rest 1 == b'*') ≡ false

-- What may stand behind the trivia: a line comment that the end of the text ends, or none.
abbrev pub print_last : Option (List ℕ) → List ℕ → List ℕ
print_last none rest = rest
print_last (some line) rest = b'/' ∷ b'/' ∷ line ++ rest

-- The rest begins a token, or, behind a line comment, is at the null that ends the text.
abbrev pub StopsAt : Option (List ℕ) → List ℕ → Type 0
StopsAt none rest = StartsToken rest
StopsAt (some line) rest = IsLine line × (char_at rest 0 ≡ 0)

skip_while-stop :
    (test : ℕ → Bool) (c : ℕ) (curr : List ℕ)
    → test c ≡ false
    → skip_while test (c ∷ curr) ≡ c ∷ curr
unfolding skip_while
skip_while-stop test c curr h = rw h refl

skip_while-line :
    (line curr : List ℕ)
    → IsLine line
    → skip_while in_line_comment (line ++ (10 ∷ curr)) ≡ 10 ∷ curr
unfolding skip_while
skip_while-line [] curr h = refl
skip_while-line (c ∷ line) curr (h, t) = rw h (skip_while-line line curr t)

skip_loop-blank :
    (fuel c : ℕ) (curr : List ℕ)
    → is_whitespace c ≡ true
    → skip_loop (suc fuel) (c ∷ curr) ≡ skip_loop (suc fuel) curr
unfolding skip_loop skip_while
skip_loop-blank fuel c curr h = rw h refl

no_comment {ℓ} :
    {A : Type ℓ} (slash line block : Bool) (x y z : A)
    → (slash && line ≡ false)
    → (slash && block ≡ false)
    → (if slash then if line then x else if block then y else z else z) ≡ z
no_comment true true block x y z h k = cc
no_comment true false true x y z h k = cc
no_comment true false false x y z h k = refl
no_comment false line block x y z h k = refl

skip_loop-token :
    (fuel : ℕ) (rest : List ℕ) → StartsToken rest → skip_loop (suc fuel) rest ≡ scanned tt rest
unfolding skip_loop skip_while skip_block_comment
skip_loop-token fuel [] s = refl
skip_loop-token fuel (c ∷ rest) s = rw s.no_blank (
    no_comment (c == b'/') (char_at rest 0 == b'/') (char_at rest 0 == b'*')
      (skip_loop fuel (skip_while in_line_comment (drop 1 rest)))
      (bind (comment_loop (drop 1 rest) 1) (λ _ l. skip_loop fuel l)) (scanned tt (c ∷ rest))
      s.no_line s.no_block)

newline : is_whitespace 10 ≡ true
unfolding is_whitespace
newline = refl

to_line :
    (fuel : ℕ) (curr : List ℕ)
    → skip_loop (suc fuel) (b'/' ∷ b'/' ∷ curr) ≡ skip_loop fuel (skip_while in_line_comment curr)
unfolding skip_loop skip_while is_whitespace
to_line fuel curr = refl

skip_loop-line :
    (fuel : ℕ) (line curr : List ℕ)
    → IsLine line
    → skip_loop (suc (suc fuel)) (b'/' ∷ b'/' ∷ line ++ (10 ∷ curr)) ≡ skip_loop (suc fuel) curr
skip_loop-line fuel line curr h =
    to_line (suc fuel) (line ++ (10 ∷ curr))
    ∙ rw (skip_while-line line curr h) (skip_loop-blank fuel 10 curr newline)

skip_loop-block :
    (fuel : ℕ) (k : Comment) (curr : List ℕ)
    → IsComment k
    → skip_loop (suc fuel) (b'/' ∷ b'*' ∷ print_comment k ++ (b'*' ∷ b'/' ∷ curr))
      ≡ skip_loop fuel curr
unfolding skip_loop skip_while is_whitespace skip_block_comment
skip_loop-block fuel k curr h = rw (comment_loop-print k 0 curr h) refl

skip_while-null :
    (line rest : List ℕ)
    → IsLine line
    → char_at rest 0 ≡ 0
    → skip_while in_line_comment (line ++ rest) ≡ rest
unfolding skip_while
skip_while-null [] [] h e = refl
skip_while-null [] (c ∷ rest) h e =
    let stops : in_line_comment c ≡ false = rw e refl in rw stops refl
skip_while-null (c ∷ line) rest (h, t) e = rw h (skip_while-null line rest t e)

null-StartsToken : (rest : List ℕ) → char_at rest 0 ≡ 0 → StartsToken rest
unfolding is_whitespace
null-StartsToken rest e = record { no_blank = rw e refl; no_line = rw e refl; no_block = rw e refl }

-- The rounds that it takes.
abbrev rounds_of : Option (List ℕ) → ℕ
rounds_of none = 0
rounds_of (some line) = 1

skip_loop-last :
    (last : Option (List ℕ)) (fuel : ℕ) (rest : List ℕ)
    → StopsAt last rest
    → rounds_of last < fuel
    → skip_loop fuel (print_last last rest) ≡ scanned tt rest
skip_loop-last last zero rest s k = absurd (omega arith)
skip_loop-last none (suc fuel) rest s k = skip_loop-token fuel rest s
skip_loop-last (some line) (suc zero) rest s k = absurd (omega arith)
skip_loop-last (some line) (suc (suc fuel)) rest (h, e) k =
    to_line (suc fuel) (line ++ rest)
    ∙ rw (skip_while-null line rest h e) (skip_loop-token fuel rest (null-StartsToken rest e))

skip_loop-print :
    (pieces : List Trivia) (last : Option (List ℕ)) (fuel : ℕ) (rest : List ℕ)
    → AreTrivia pieces
    → StopsAt last rest
    → length pieces + rounds_of last < fuel
    → skip_loop fuel (print_trivia pieces ++ print_last last rest) ≡ scanned tt rest
skip_loop-print pieces last zero rest h s k = absurd (omega arith)
skip_loop-print [] last (suc fuel) rest h s k = skip_loop-last last (suc fuel) rest s (omega arith)
skip_loop-print (blank c ∷ pieces) last (suc fuel) rest (h, t) s k =
    skip_loop-blank fuel c (print_trivia pieces ++ print_last last rest) h
    ∙ skip_loop-print pieces last (suc fuel) rest t s (omega arith)
skip_loop-print (line_comment line ∷ pieces) last (suc zero) rest (h, t) s k = absurd (omega arith)
skip_loop-print (line_comment line ∷ pieces) last (suc (suc fuel)) rest (h, t) s k =
    rw (append_assoc line (10 ∷ print_trivia pieces) (print_last last rest)) (
      skip_loop-line fuel line (print_trivia pieces ++ print_last last rest) h
      ∙ skip_loop-print pieces last (suc fuel) rest t s (omega arith))
skip_loop-print (block_comment k ∷ pieces) last (suc fuel) rest (h, t) s l =
    rw (append_assoc (print_comment k) (b'*' ∷ b'/' ∷ print_trivia pieces) (print_last last rest)) (
      skip_loop-block fuel k (print_trivia pieces ++ print_last last rest) h
      ∙ skip_loop-print pieces last fuel rest t s (omega arith))

length-print_trivia : (pieces : List Trivia) → length pieces ≤ length (print_trivia pieces)
length-print_trivia [] = omega arith
length-print_trivia (blank c ∷ pieces) = omega (arith, length-print_trivia pieces)
length-print_trivia (line_comment line ∷ pieces) =
    omega (arith, length-print_trivia pieces, length-append line (10 ∷ print_trivia pieces))
length-print_trivia (block_comment k ∷ pieces) = omega (
  arith,
  length-print_trivia pieces,
  length-append (print_comment k) (b'*' ∷ b'/' ∷ print_trivia pieces),
)

rounds_of-le :
    (last : Option (List ℕ)) (rest : List ℕ) → rounds_of last ≤ length (print_last last rest)
rounds_of-le none rest = omega arith
rounds_of-le (some line) rest = omega arith

-- `skip_whitespace` passes over any sequence of blanks, line comments and nested block comments, whose
-- text has no null and may have lone slashes and stars that make no mark, and stops where a token
-- starts, or, where a line comment is the last, at the null that ends the text.
pub skip_whitespace-print :
    (pieces : List Trivia) (last : Option (List ℕ)) (rest : List ℕ)
    → AreTrivia pieces
    → StopsAt last rest
    → skip_whitespace (print_trivia pieces ++ print_last last rest) ≡ scanned tt rest
unfolding skip_whitespace
skip_whitespace-print pieces last rest h s =
    skip_loop-print pieces last (suc (length (print_trivia pieces ++ print_last last rest))) rest h
      s
      (omega (
        arith,
        length-print_trivia pieces,
        length-append (print_trivia pieces) (print_last last rest),
        rounds_of-le last rest,
      ))
