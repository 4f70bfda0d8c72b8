-- ===== src/Lexer/Next/Peek.antt =====
-- Looking ahead in the lexer of core/parse.cpp.
use toy_language.Base.{ℕ, ◌≡◌, refl, sym, ap, Option, none, some}
use toy_language.Lexer.{Scan, scanned, fatal, panicked, unspecified, unfinished}
use toy_language.Lexer.Next.{
  Lexeme, Surroundings, SourceLexeme, Parser, Parsed, parsed, stopped, to_parsed, after_trivia,
  next_from, next, next_without_source, remember, peek,
}
use toy_language.Lexer.Trivia.{skip_whitespace}

module _ {ℓ} {Float : Type ℓ} (around : Surroundings Float) where
  -- Looking ahead at `p` agrees with a call of `next` that ends in this result: it gives the same
  -- lexeme, and leaves a parser where `next` ends in this result, or it stops the same way.
  abbrev pub Foresees : Parser Float → Parsed Float → Type ℓ
  Foresees p (parsed l later) =
      (q : Parser Float) × (peek around p ≡ parsed l q) × (next around q ≡ parsed l later)
  Foresees p (stopped s) = peek around p ≡ stopped s

  abbrev IsFresh : Parsed Float → Type ℓ
  IsFresh (parsed l later) = later ≡ record later { peek = none }
  IsFresh (stopped s) = Unit

  IsFresh-to_parsed :
      (p : Parser Float) (source_id : ℕ) (s : Scan (Lexeme Float))
      → IsFresh (to_parsed around p source_id s)
  IsFresh-to_parsed p source_id (scanned l rest) = refl
  IsFresh-to_parsed p source_id (fatal e) = tt
  IsFresh-to_parsed p source_id panicked = tt
  IsFresh-to_parsed p source_id unspecified = tt
  IsFresh-to_parsed p source_id unfinished = tt

  IsFresh-after_trivia :
      (p : Parser Float) (s : Scan (Unit {0})) → IsFresh (after_trivia around p s)
  IsFresh-after_trivia p (scanned u curr) = IsFresh-to_parsed p _ (next_without_source around curr)
  IsFresh-after_trivia p (fatal e) = tt
  IsFresh-after_trivia p panicked = tt
  IsFresh-after_trivia p unspecified = tt
  IsFresh-after_trivia p unfinished = tt

  remember-Foresees :
      (p : Parser Float) (result : Parsed Float)
      → peek around p ≡ remember around result
      → IsFresh result
      → Foresees p result
  unfolding next
  remember-Foresees p (parsed l later) e fresh =
      (record later { peek = some l }, e, ap (parsed l) (sym fresh))
  remember-Foresees p (stopped s) e fresh = e

  from-Foresees :
      (p : Parser Float) (peeked : Option (SourceLexeme Float))
      → p.peek ≡ peeked
      → Foresees p (next_from around p peeked)
  unfolding next peek
  from-Foresees p (some l) e = (p, rw e refl, rw e refl)
  from-Foresees p none e =
      remember-Foresees p (next_from around p none) (rw e refl)
        (IsFresh-after_trivia p (skip_whitespace p.curr))

  -- `peek` gives the lexeme that `next` would, and `next` after it gives that lexeme and the parser
  -- that it would have given before; where `next` would stop, `peek` stops the same way.
  pub peek-Foresees : (p : Parser Float) → Foresees p (next around p)
  unfolding next
  peek-Foresees p = from-Foresees p p.peek refl
