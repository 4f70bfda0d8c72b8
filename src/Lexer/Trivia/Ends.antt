-- ===== src/Lexer/Trivia/Ends.antt =====
-- That `skip_whitespace` of core/parse.cpp ends on every text, and passes no null.
use toy_language.Base.{
  ◌==◌, ==_iff, if◌then◌else◌, Bool-cases, length, length-append, drop, ℕ, zero, suc, ◌≤◌, ◌<◌, ◌≡◌,
  ◌≢◌, refl, sym, ap, ◌∙◌, inl, inr, Bool, true, false, List, [], ◌∷◌, ◌++◌, arith,
}
use mathlib.Core.List.{append_assoc}
use toy_language.Lexer.{
  Scan, scanned, fatal, panicked, unspecified, unfinished, bind, char_at, is_whitespace, skip_while,
}
use toy_language.Lexer.Trivia.{
  comment_loop, skip_block_comment, in_line_comment, skip_loop, skip_whitespace,
}

abbrev pub HasNoNull : List ℕ → Type 0
HasNoNull [] = Unit {0}
HasNoNull (c ∷ curr) = (c ≢ 0) × HasNoNull curr

-- The rest of a text, behind characters of which none is null.
pub record Passes (curr rest : List ℕ) : Type 0 where
  pub passed : List ℕ
  pub split : curr ≡ passed ++ rest
  pub no_null : HasNoNull passed

-- A scan that ends within its fuel; if it ends with a result, it has passed no null.
abbrev pub EndsWithin {ℓ} : {A : Type ℓ} → List ℕ → Scan A → Type 0
EndsWithin curr (scanned a rest) = Passes curr rest
EndsWithin curr (fatal e) = Unit {0}
EndsWithin curr panicked = Unit {0}
EndsWithin curr unspecified = Unit {0}
EndsWithin curr unfinished = ⊥

Passes-refl : (curr : List ℕ) → Passes curr curr
Passes-refl curr = record { passed = []; split = refl; no_null = tt }

Passes-cons : (c : ℕ) (curr rest : List ℕ) → c ≢ 0 → Passes curr rest → Passes (c ∷ curr) rest
Passes-cons c curr rest h p = record {
  passed = c ∷ p.passed;
  split = ap (λ l. c ∷ l) p.split;
  no_null = (h, p.no_null);
}

HasNoNull-append : (xs ys : List ℕ) → HasNoNull xs → HasNoNull ys → HasNoNull (xs ++ ys)
HasNoNull-append [] ys h k = k
HasNoNull-append (x ∷ xs) ys (h, t) k = (h, HasNoNull-append xs ys t k)

Passes-trans : (curr mid rest : List ℕ) → Passes curr mid → Passes mid rest → Passes curr rest
Passes-trans curr mid rest p q = record {
  passed = p.passed ++ q.passed;
  split = p.split ∙ ap (λ l. p.passed ++ l) q.split ∙ sym (append_assoc p.passed q.passed rest);
  no_null = HasNoNull-append p.passed q.passed p.no_null q.no_null;
}

Passes-length : (curr rest : List ℕ) → Passes curr rest → length rest ≤ length curr
Passes-length curr rest p =
    let all : length curr ≡ length (p.passed ++ rest) = ap (λ l. length l) p.split in
    omega (arith, all, length-append p.passed rest)

EndsWithin-if :
    (curr : List ℕ) (b : Bool) (s t : Scan (Unit {0}))
    → (b ≡ true → EndsWithin curr s)
    → (b ≡ false → EndsWithin curr t)
    → EndsWithin curr (if b then s else t)
EndsWithin-if curr true s t h k = h refl
EndsWithin-if curr false s t h k = k refl

EndsWithin-from :
    (curr mid : List ℕ) (s : Scan (Unit {0}))
    → Passes curr mid
    → EndsWithin mid s
    → EndsWithin curr s
EndsWithin-from curr mid (scanned a rest) h k = Passes-trans curr mid rest h k
EndsWithin-from curr mid (fatal e) h k = tt
EndsWithin-from curr mid panicked h k = tt
EndsWithin-from curr mid unspecified h k = tt
EndsWithin-from curr mid unfinished h k = k

EndsWithin-bind :
    (curr mid : List ℕ) (s : Scan (Unit {0})) (f : Unit {0} → List ℕ → Scan (Unit {0}))
    → EndsWithin mid s
    → ((rest : List ℕ) → Passes mid rest → EndsWithin curr (f tt rest))
    → EndsWithin curr (bind s f)
EndsWithin-bind curr mid (scanned a rest) f h k = k rest h
EndsWithin-bind curr mid (fatal e) f h k = tt
EndsWithin-bind curr mid panicked f h k = tt
EndsWithin-bind curr mid unspecified f h k = tt
EndsWithin-bind curr mid unfinished f h k = h

Passes-skip_while :
    (test : ℕ → Bool) (curr : List ℕ) → test 0 ≡ false → Passes curr (skip_while test curr)
unfolding skip_while
Passes-skip_while test [] h = Passes-refl []
Passes-skip_while test (c ∷ curr) h = elim (Bool-cases (test c)) [
  | inr e ↦ rw e (Passes-refl (c ∷ curr))
  | inl e ↦
      let some_char : c ≢ 0 = (λ z. let stops : test c ≡ false = rw z h in cc) in
      rw e (Passes-cons c curr (skip_while test curr) some_char (Passes-skip_while test curr h))
]

-- A character that is found to be this one is not null.
found_char : (c k : ℕ) → k ≢ 0 → (c == k) ≡ true → c ≢ 0
found_char c k h e = let same : c ≡ k = (==_iff c k).0 e in λ z. h (sym same ∙ z)

slash_char : (c : ℕ) → (c == b'/') ≡ true → c ≢ 0
slash_char c e = found_char c b'/' (λ z. omega (arith, z)) e

star_char : (c : ℕ) → (c == b'*') ≡ true → c ≢ 0
star_char c e = found_char c b'*' (λ z. omega (arith, z)) e

other_char : (c : ℕ) → (c == 0) ≡ false → c ≢ 0
other_char c e z = let null : (c == 0) ≡ true = (==_iff c 0).1 z in cc

Passes-two : (c d : ℕ) (curr : List ℕ) → c ≢ 0 → d ≢ 0 → Passes (c ∷ d ∷ curr) curr
Passes-two c d curr h k =
    Passes-cons c (d ∷ curr) curr h (Passes-cons d curr curr k (Passes-refl curr))

Passes-one : (c : ℕ) (curr : List ℕ) → c ≢ 0 → Passes (c ∷ curr) curr
Passes-one c curr h = Passes-cons c curr curr h (Passes-refl curr)

comment_loop-EndsWithin :
    (curr : List ℕ) (nesting : ℕ) → EndsWithin curr (comment_loop curr nesting)
unfolding comment_loop
comment_loop-EndsWithin [] zero = Passes-refl []
comment_loop-EndsWithin (c ∷ curr) zero = Passes-refl (c ∷ curr)
comment_loop-EndsWithin [] (suc nesting) = tt
comment_loop-EndsWithin (c ∷ []) (suc nesting) = tt
comment_loop-EndsWithin (c ∷ d ∷ curr) (suc nesting) =
    let all = c ∷ d ∷ curr in
    let two : (n : ℕ) → c ≢ 0 → d ≢ 0 → EndsWithin all (comment_loop curr n) = (λ n h k.
      EndsWithin-from all curr (comment_loop curr n) (Passes-two c d curr h k)
        (comment_loop-EndsWithin curr n)) in
    let step : c ≢ 0 → EndsWithin all (comment_loop (d ∷ curr) (suc nesting)) = (λ h.
      EndsWithin-from all (d ∷ curr) (comment_loop (d ∷ curr) (suc nesting))
        (Passes-one c (d ∷ curr) h) (comment_loop-EndsWithin (d ∷ curr) (suc nesting))) in
    EndsWithin-if all (c == b'/') _ _
      (λ slash.
        EndsWithin-if all (d == b'*') _ _
          (λ star. two (suc (suc nesting)) (slash_char c slash) (star_char d star))
          (λ other. step (slash_char c slash)))
      (λ no_slash.
        EndsWithin-if all (c == b'*') _ _
          (λ star.
            EndsWithin-if all (d == b'/') _ _
              (λ slash. two nesting (star_char c star) (slash_char d slash))
              (λ other. step (star_char c star)))
          (λ no_star.
            EndsWithin-if all (c == 0) _ _ (λ null. tt) (λ other. step (other_char c other))))

-- A round of the loop, from where the blanks end.
abbrev round : ℕ → List ℕ → Scan (Unit {0})
round fuel at_token =
    if char_at at_token 0 == b'/'
    then if char_at at_token 1 == b'/'
      then skip_loop fuel (skip_while in_line_comment (drop 2 at_token))
      else if char_at at_token 1 == b'*'
      then bind (skip_block_comment at_token) (λ _ rest. skip_loop fuel rest)
      else scanned tt at_token
    else scanned tt at_token

Rounds : ℕ → Type 0
Rounds fuel = (curr : List ℕ) → length curr < fuel → EndsWithin curr (skip_loop fuel curr)

line-EndsWithin :
    (fuel c d : ℕ) (l : List ℕ)
    → suc (length l) < fuel
    → c ≢ 0
    → d ≢ 0
    → Rounds fuel
    → EndsWithin (c ∷ d ∷ l) (skip_loop fuel (skip_while in_line_comment l))
unfolding Rounds
line-EndsWithin fuel c d l h n m k =
    let line = skip_while in_line_comment l in
    let over = Passes-skip_while in_line_comment l refl in
    EndsWithin-from (c ∷ d ∷ l) line (skip_loop fuel line)
      (Passes-trans (c ∷ d ∷ l) l line (Passes-two c d l n m) over)
      (k line (omega (arith, h, Passes-length l line over)))

block-EndsWithin :
    (fuel c d : ℕ) (l : List ℕ)
    → suc (length l) < fuel
    → c ≢ 0
    → d ≢ 0
    → Rounds fuel
    → EndsWithin (c ∷ d ∷ l) (bind (comment_loop l 1) (λ _ rest. skip_loop fuel rest))
unfolding Rounds
block-EndsWithin fuel c d l h n m k =
    EndsWithin-bind (c ∷ d ∷ l) l (comment_loop l 1) (λ _ rest. skip_loop fuel rest)
      (comment_loop-EndsWithin l 1)
      (λ rest over.
        EndsWithin-from (c ∷ d ∷ l) rest (skip_loop fuel rest)
          (Passes-trans (c ∷ d ∷ l) l rest (Passes-two c d l n m) over)
          (k rest (omega (arith, h, Passes-length l rest over))))

round-EndsWithin :
    (fuel : ℕ) (at_token : List ℕ)
    → length at_token ≤ fuel
    → Rounds fuel
    → EndsWithin at_token (round fuel at_token)
unfolding skip_block_comment
round-EndsWithin fuel [] h k = Passes-refl []
round-EndsWithin fuel (c ∷ []) h k =
    EndsWithin-if (c ∷ []) (c == b'/') _ _ (λ e. Passes-refl (c ∷ [])) (λ e. Passes-refl (c ∷ []))
round-EndsWithin fuel (c ∷ d ∷ l) h k =
    EndsWithin-if (c ∷ d ∷ l) (c == b'/') _ _
      (λ slash.
        EndsWithin-if (c ∷ d ∷ l) (d == b'/') _ _
          (λ line.
            line-EndsWithin fuel c d l (omega arith) (slash_char c slash) (slash_char d line) k)
          (λ no_line.
            EndsWithin-if (c ∷ d ∷ l) (d == b'*') _ _
              (λ block.
                block-EndsWithin fuel c d l (omega arith) (slash_char c slash) (star_char d block)
                  k)
              (λ no_block. Passes-refl (c ∷ d ∷ l))))
      (λ token. Passes-refl (c ∷ d ∷ l))

blank_null : is_whitespace 0 ≡ false
unfolding is_whitespace
blank_null = refl

skip_loop-EndsWithin :
    (fuel : ℕ) (curr : List ℕ) → length curr < fuel → EndsWithin curr (skip_loop fuel curr)
unfolding skip_loop Rounds
skip_loop-EndsWithin zero curr h = absurd (omega arith)
skip_loop-EndsWithin (suc fuel) curr h =
    let at_token = skip_while is_whitespace curr in
    let over = Passes-skip_while is_whitespace curr blank_null in
    EndsWithin-from curr at_token (round fuel at_token) over (
      round-EndsWithin fuel at_token (omega (arith, h, Passes-length curr at_token over))
        (λ l k. skip_loop-EndsWithin fuel l k))

-- On every text `skip_whitespace` ends, with an error, or at a place before which it has passed no
-- null character.
pub skip_whitespace-EndsWithin : (curr : List ℕ) → EndsWithin curr (skip_whitespace curr)
unfolding skip_whitespace
skip_whitespace-EndsWithin curr = skip_loop-EndsWithin (suc (length curr)) curr (omega arith)
