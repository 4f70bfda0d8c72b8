-- ===== src/Lexer/Number/Digits.antt =====
-- The digits of number literals, of core/parse.cpp.
use toy_language.Base.{
  Run, returns, ◌>>=◌, ◌+ℤ◌, ◌*ℤ◌, pos, ℕ, ◌+◌, ◌*◌, ◌^◌, ◌≤◌, ◌<◌, ◌≡◌, refl, Option, none, some,
  List, [], ◌∷◌, ◌++◌, arith,
}
use native.Mathlib.Nat.{mul-le-mul_left}
use native.Mathlib.Decide.{dec_le}
use toy_language.CompValues.CompInteger.{
  CompIntegerValue, comp_integer_max, comp_integer_from_u64, comp_integer_add, comp_integer_mul,
}
use toy_language.CompValues.CompInteger.Value.{
  IsSupported, rep_twice, Represents, Computes, comp_integer_add-Computes,
  comp_integer_mul-Computes,
}
use toy_language.CompValues.CompInteger.Convert.{comp_integer_from_u64-Computes}
use toy_language.Lexer.{Scan, scanned, panicked, bind, lift}
use toy_language.Lexer.Number.{add_digit, digit_loop}

small : (n : ℕ) → n < 2 ^ 16 → IsSupported (pos n)
small n h = ground arith

pos_product : (a b : ℕ) → (pos a *ℤ pos b) ≡ pos (a * b)
unfolding ◌*ℤ◌
pos_product a b =
    let e : a * 0 + 0 * b ≡ 0 = omega arith in
    let f : a * b + 0 ≡ a * b = omega arith in rw (e, f) (ground arith)

pos_sum : (a b : ℕ) → (pos a +ℤ pos b) ≡ pos (a + b)
unfolding ◌+ℤ◌
pos_sum a b = ground arith

product-Computes :
    (c base : CompIntegerValue) (a factor : ℕ)
    → Represents (pos a) c
    → Represents (pos factor) base
    → Computes (pos (a * factor)) (comp_integer_mul c base)
product-Computes c base a factor r b =
    rw (r.means, b.means, pos_product a factor) at
      (comp_integer_mul-Computes c base r.inlined b.inlined)

sum-Computes :
    (product last : CompIntegerValue) (p d : ℕ)
    → Represents (pos p) product
    → Represents (pos d) last
    → Computes (pos (p + d)) (comp_integer_add product last)
sum-Computes product last p d r l =
    rw (r.means, l.means, pos_sum p d) at
      (comp_integer_add-Computes product last r.inlined l.inlined)

then_sum-Computes :
    (run : Run CompIntegerValue) (last : CompIntegerValue) (p d : ℕ)
    → Computes (pos p) run
    → Represents (pos d) last
    → Computes (pos (p + d)) (run >>= λ product. comp_integer_add product last)
then_sum-Computes run last p d r l = elim (dec_le p comp_integer_max) [
  | yes below ↦
      let (product, e, q) = r.supported (omega arith) in rw e (sum-Computes product last p d q l)
  | no above ↦
      rw (r.unsupported (λ t. omega arith))
        (record { supported = λ t. absurd (omega arith); unsupported = λ t. refl })
]

step-Computes :
    (c base last : CompIntegerValue) (a factor d : ℕ)
    → Represents (pos a) c
    → comp_integer_from_u64 factor ≡ returns base
    → Represents (pos factor) base
    → comp_integer_from_u64 d ≡ returns last
    → Represents (pos d) last
    → Computes (pos (a * factor + d)) (add_digit factor c d)
unfolding add_digit
step-Computes c base last a factor d r e b f l =
    rw (e, f)
      (then_sum-Computes (comp_integer_mul c base) last (a * factor) d
        (product-Computes c base a factor r b) l)

-- One round gives the value with one digit more, and panics if that is not supported.
add_digit-Computes :
    (c : CompIntegerValue) (a factor d : ℕ)
    → Represents (pos a) c
    → factor < 2 ^ 16
    → d < 2 ^ 16
    → Computes (pos (a * factor + d)) (add_digit factor c d)
add_digit-Computes c a factor d r h k =
    let (base, e, b) =
      (comp_integer_from_u64-Computes factor (omega arith)).supported (small factor h) in
    let (last, f, l) = (comp_integer_from_u64-Computes d (omega arith)).supported (small d k) in
    step-Computes c base last a factor d r e b f l

-- The number that digits write after `a`.
abbrev pub horner : ℕ → ℕ → List ℕ → ℕ
horner factor a [] = a
horner factor a (d ∷ ds) = horner factor (a * factor + d) ds

-- Each character is the digit with the value beside it.
abbrev pub AreDigits : (ℕ → Option ℕ) → List ℕ → List ℕ → Type 0
AreDigits digit [] [] = Unit {0}
AreDigits digit [] (d ∷ ds) = ⊥
AreDigits digit (c ∷ cs) [] = ⊥
AreDigits digit (c ∷ cs) (d ∷ ds) = (digit c ≡ some d) × (d < 2 ^ 16) × AreDigits digit cs ds

-- The text does not go on with a digit.
abbrev pub EndsDigits : (ℕ → Option ℕ) → List ℕ → Type 0
EndsDigits digit [] = Unit {0}
EndsDigits digit (c ∷ rest) = digit c ≡ none

-- A scan of the number `v` that stops at `rest`, or panics if the number is not supported.
pub record ScansNumber (v : ℕ) (rest : List ℕ) (scan : Scan CompIntegerValue) : Type 0 where
  pub supported :
      v ≤ comp_integer_max → (r : CompIntegerValue) × (scan ≡ scanned r rest) × Represents (pos v) r
  pub unsupported : comp_integer_max < v → scan ≡ panicked

horner-le : (factor a : ℕ) (ds : List ℕ) → 0 < factor → a ≤ horner factor a ds
horner-le factor a [] h = omega arith
horner-le factor a (d ∷ ds) h =
    let more : a ≤ a * factor = omega (arith, mul-le-mul_left {m = 1} {n = factor} a h) in
    omega (arith, horner-le factor (a * factor + d) ds h)

digit_loop-none :
    (digit : ℕ → Option ℕ) (factor : ℕ) (rest : List ℕ) (c : CompIntegerValue)
    → EndsDigits digit rest
    → digit_loop digit factor rest c ≡ scanned c rest
unfolding digit_loop
digit_loop-none digit factor [] c h = refl
digit_loop-none digit factor (x ∷ rest) c h = rw (h, digit_loop) refl

digit_loop-some :
    (digit : ℕ → Option ℕ) (factor x d : ℕ) (rest : List ℕ) (c : CompIntegerValue)
    → digit x ≡ some d
    → digit_loop digit factor (x ∷ rest) c
      ≡ bind (lift (add_digit factor c d) rest) (λ next _. digit_loop digit factor rest next)
unfolding digit_loop
digit_loop-some digit factor x d rest c h = rw (h, digit_loop) refl

-- A loop over digits gives the number that they write after the one it starts from.
pub digit_loop-ScansNumber :
    (digit : ℕ → Option ℕ) (factor a : ℕ) (cs ds rest : List ℕ) (c : CompIntegerValue)
    → 0 < factor
    → factor < 2 ^ 16
    → AreDigits digit cs ds
    → EndsDigits digit rest
    → Represents (pos a) c
    → ScansNumber (horner factor a ds) rest (digit_loop digit factor (cs ++ rest) c)
digit_loop-ScansNumber digit factor a [] [] rest c h k t end r =
    rw (digit_loop-none digit factor rest c end) (record {
      supported = λ s. (c, refl, r);
      unsupported = λ s.
          let t : IsSupported (pos a) = rw r.means at ((rep_twice c r.inlined).2) in
          absurd (omega arith);
    })
digit_loop-ScansNumber digit factor a [] (d ∷ ds) rest c h k t end r = absurd t
digit_loop-ScansNumber digit factor a (x ∷ cs) [] rest c h k t end r = absurd t
digit_loop-ScansNumber digit factor a (x ∷ cs) (d ∷ ds) rest c h k (e, small, t) end r =
    let step = add_digit-Computes c a factor d r k small in
    rw (digit_loop-some digit factor x d (cs ++ rest) c e)
      (elim (dec_le (a * factor + d) comp_integer_max) [
        | yes below ↦
            let (next, f, q) = step.supported (omega arith) in
            rw f (digit_loop-ScansNumber digit factor (a * factor + d) cs ds rest next h k t end q)
        | no above ↦ rw (step.unsupported (λ s. omega arith)) (record {
          supported = λ s. absurd (omega (arith, horner-le factor (a * factor + d) ds h));
          unsupported = λ s. refl;
        })
      ])
