-- ===== src/Lexer/Trivia/Comment.antt =====
-- The text of block comments, in core/parse.cpp.
use toy_language.Base.{
  ==_ne, ==_iff, ◌⊎◌, inl, inr, ℕ, suc, ◌≡◌, refl, ◌∙◌, ◌≢◌, List, [], ◌∷◌, ◌++◌,
}
use mathlib.Core.List.{append_assoc}
use native.Mathlib.Decide.{ℕ_discrete}
use toy_language.Lexer.Trivia.{comment_loop}

-- The text of a block comment: characters, and comments in it.
pub data Comment : Type 0 where
  done : Comment
  then_char : ℕ → Comment → Comment
  then_nested : Comment → Comment → Comment

abbrev pub print_comment : Comment → List ℕ
print_comment done = []
print_comment (then_char c k) = c ∷ print_comment k
print_comment (then_nested inner k) =
    b'/' ∷ b'*' ∷ print_comment inner ++ (b'*' ∷ b'/' ∷ print_comment k)

-- What stands first in the text, or in the mark behind it.
abbrev pub first_char : Comment → ℕ
first_char done = b'*'
first_char (then_char c k) = c
first_char (then_nested inner k) = b'/'

-- None of its characters is null, and none makes a mark with what stands behind it.
abbrev pub IsComment : Comment → Type 0
IsComment done = Unit {0}
IsComment (then_char c k) =
    (c ≢ 0)
    × ((c ≢ b'/') ⊎ (first_char k ≢ b'*'))
    × ((c ≢ b'*') ⊎ (first_char k ≢ b'/'))
    × IsComment k
IsComment (then_nested inner k) = IsComment inner × IsComment k

tail_of : Comment → List ℕ → List ℕ
tail_of done rest = b'/' ∷ rest
tail_of (then_char c k) rest = print_comment k ++ (b'*' ∷ b'/' ∷ rest)
tail_of (then_nested inner k) rest =
    b'*' ∷ (print_comment inner ++ (b'*' ∷ b'/' ∷ print_comment k)) ++ (b'*' ∷ b'/' ∷ rest)

first_char-print :
    (k : Comment) (rest : List ℕ)
    → print_comment k ++ (b'*' ∷ b'/' ∷ rest) ≡ first_char k ∷ tail_of k rest
unfolding tail_of
first_char-print done rest = refl
first_char-print (then_char c k) rest = refl
first_char-print (then_nested inner k) rest = refl

-- A character that makes no mark is passed over.
comment_loop-char :
    (c d nesting : ℕ) (curr : List ℕ)
    → (c ≢ 0)
    → ((c ≢ b'/') ⊎ (d ≢ b'*'))
    → ((c ≢ b'*') ⊎ (d ≢ b'/'))
    → comment_loop (c ∷ d ∷ curr) (suc nesting) ≡ comment_loop (d ∷ curr) (suc nesting)
unfolding comment_loop
comment_loop-char c d nesting curr h k l = elim (ℕ_discrete c b'/') [
  | yes slash ↦ elim k [
    | inl other ↦ absurd (other slash)
    | inr lone ↦ rw ((==_iff c b'/').1 slash, ==_ne d b'*' lone) refl
  ]
  | no other ↦ elim (ℕ_discrete c b'*') [
    | no plain ↦ rw (==_ne c b'/' other, ==_ne c b'*' plain, ==_ne c 0 h) refl
    | yes star ↦ elim l [
      | inl plain ↦ absurd (plain star)
      | inr lone ↦ rw (==_ne c b'/' other, (==_iff c b'*').1 star, ==_ne d b'/' lone) refl
    ]
  ]
]

comment_loop-close :
    (nesting : ℕ) (curr : List ℕ)
    → comment_loop (b'*' ∷ b'/' ∷ curr) (suc nesting) ≡ comment_loop curr nesting
unfolding comment_loop
comment_loop-close nesting curr = refl

comment_loop-open :
    (nesting : ℕ) (curr : List ℕ)
    → comment_loop (b'/' ∷ b'*' ∷ curr) (suc nesting) ≡ comment_loop curr (suc (suc nesting))
unfolding comment_loop
comment_loop-open nesting curr = refl

-- The loop passes over the text of a comment and what closes it.
pub comment_loop-print :
    (k : Comment) (nesting : ℕ) (rest : List ℕ)
    → IsComment k
    → comment_loop (print_comment k ++ (b'*' ∷ b'/' ∷ rest)) (suc nesting)
      ≡ comment_loop rest nesting
comment_loop-print done nesting rest h = comment_loop-close nesting rest
comment_loop-print (then_char c k) nesting rest (h, l, m, t) =
    let passed : comment_loop (c ∷ print_comment k ++ (b'*' ∷ b'/' ∷ rest)) (suc nesting)
        ≡ comment_loop (print_comment k ++ (b'*' ∷ b'/' ∷ rest)) (suc nesting) =
      rw (first_char-print k rest)
        (comment_loop-char c (first_char k) nesting (tail_of k rest) h l m) in
    passed ∙ comment_loop-print k nesting rest t
comment_loop-print (then_nested inner k) nesting rest (h, t) =
    comment_loop-open nesting
      ((print_comment inner ++ (b'*' ∷ b'/' ∷ print_comment k)) ++ (b'*' ∷ b'/' ∷ rest))
    ∙ rw (append_assoc (print_comment inner) (b'*' ∷ b'/' ∷ print_comment k) (b'*' ∷ b'/' ∷ rest)) (
        comment_loop-print inner (suc nesting) (print_comment k ++ (b'*' ∷ b'/' ∷ rest)) h
        ∙ comment_loop-print k nesting rest t)
