-- ===== src/CompValues/Bitwise/Complement.antt =====
-- `bitwise_not` and `bitwise_neg` on whole bytes.
use toy_language.Base.{
  ltb, ◌==◌, if◌then◌else◌, ==_iff, Bool-cases, returns, Returns, length, ℕ, zero, suc, ◌+◌, ◌-◌,
  ◌*◌, ◌/◌, ◌%◌, ◌^◌, ◌<◌, ◌≡◌, refl, ap, ◌∙◌, ◌≢◌, ◌↔◌, inl, inr, Bool, true, false, List, [], ◌∷◌,
  arith,
}
use native.Mathlib.Nat.{pow-suc, mod_self, mod-eq_of_lt}
use toy_language.Base.Bytes.{IsBytes, from_bytes, from_bytes-lt}
use toy_language.CompValues.Bitwise.{
  not_bytes, bitwise_not, increment, increment_partial, bitwise_neg,
}

not_bytes-sum :
    (dst operand : List ℕ)
    → length dst ≡ length operand
    → IsBytes operand
    → from_bytes (not_bytes (length dst) dst operand) + from_bytes operand + 1 ≡ 256 ^ length dst
unfolding not_bytes
not_bytes-sum [] [] e h = omega arith
not_bytes-sum [] (o ∷ operand) e h = absurd (omega arith)
not_bytes-sum (d ∷ dst) [] e h = absurd (omega arith)
not_bytes-sum (d ∷ dst) (o ∷ operand) e (h, t) =
    omega (arith, pow-suc 256 (length dst), not_bytes-sum dst operand (omega arith) t)

length-not_bytes : (n : ℕ) (dst operand : List ℕ) → length (not_bytes n dst operand) ≡ length dst
unfolding not_bytes
length-not_bytes zero dst operand = refl
length-not_bytes (suc n) [] operand = refl
length-not_bytes (suc n) (d ∷ dst) [] = refl
length-not_bytes (suc n) (d ∷ dst) (o ∷ operand) = ap suc (length-not_bytes n dst operand)

not_bytes-IsBytes : (n : ℕ) (dst operand : List ℕ) → IsBytes dst → IsBytes (not_bytes n dst operand)
unfolding not_bytes
not_bytes-IsBytes zero dst operand h = h
not_bytes-IsBytes (suc n) [] operand h = tt
not_bytes-IsBytes (suc n) (d ∷ dst) [] h = h
not_bytes-IsBytes (suc n) (d ∷ dst) (o ∷ operand) (h, t) =
    (omega arith, not_bytes-IsBytes n dst operand t)

-- The loop adds one, and reports whether that did not carry out of the last byte.
increment_lem :
    (bytes : List ℕ)
    → IsBytes bytes
    → let r = increment (length bytes) bytes in
      let sum = from_bytes bytes + 1 in
      (r.0 ≡ ltb sum (256 ^ length bytes))
      × (from_bytes r.1 ≡ (if ltb sum (256 ^ length bytes) then sum else 0))
unfolding increment
increment_lem [] h = ground arith
increment_lem (b ∷ bytes) (h, t) =
    ground (arith, increment_lem bytes t, from_bytes-lt bytes t, pow-suc 256 (length bytes))

whole : (n : ℕ) → (n * 8 / 8 ≡ n) × ((n * 8 % 8 == 0) ≡ true)
whole n = (omega arith, ground arith)

not_runs :
    (dst operand : List ℕ)
    → bitwise_not (length dst * 8) dst operand ≡ returns (not_bytes (length dst) dst operand)
unfolding bitwise_not
not_runs dst operand = let (all, no_rest) = whole (length dst) in rw (no_rest, all)

-- For a `dst` as long as the operand, and a count of bits that is that of their bytes,
-- `bitwise_not` returns, and flips every bit.
pub bitwise_not-flips :
    (dst operand : List ℕ)
    → length dst ≡ length operand
    → IsBytes operand
    → Returns
        (bitwise_not (length dst * 8) dst operand)
        (λ out. from_bytes out ≡ 256 ^ length dst - 1 - from_bytes operand)
bitwise_not-flips dst operand e h = (
  not_bytes (length dst) dst operand,
  not_runs dst operand,
  omega (arith, not_bytes-sum dst operand e h),
)

partial_none : (n : ℕ) (dst : List ℕ) → increment_partial (n * 8) dst ≡ (false, dst)
unfolding increment_partial
partial_none n dst = rw (whole n).1

choose :
    (n : ℕ) (r : Bool × List ℕ) → (if r.0 then (true, r.1) else increment_partial (n * 8) r.1) ≡ r
choose n (true, out) = refl
choose n (false, out) = partial_none n out

neg_runs :
    (dst operand : List ℕ)
    → let r = increment (length dst) (not_bytes (length dst) dst operand) in
      bitwise_neg (length dst * 8) dst operand ≡ returns r
unfolding bitwise_neg
neg_runs dst operand = rw (not_runs dst operand) (
    ap returns (
      choose (length dst) (increment (length dst * 8 / 8) (not_bytes (length dst) dst operand))
      ∙ ap (λ n. increment n (not_bytes (length dst) dst operand)) (whole (length dst)).0))

-- Taking a number below the modulus from the modulus.
complement_mod : (m v : ℕ) → v < m → (m - v) % m ≡ (if v == 0 then 0 else m - v)
complement_mod m v h = elim (Bool-cases (v == 0)) [
  | inl z ↦ rw ((==_iff v 0).0 z) (rw (let e : m - 0 ≡ m = omega arith in e) (mod_self m))
  | inr nz ↦ rw (nz, mod-eq_of_lt {n = m - v} {m = m} (ground arith))
]

-- For a `dst` as long as the operand, and a count of bits that is that of their bytes,
-- `bitwise_neg` returns, negates the value modulo the range, and reports `false` at 0 and at no
-- other value.
pub bitwise_neg-negates :
    (dst operand : List ℕ)
    → length dst ≡ length operand
    → IsBytes dst
    → IsBytes operand
    → Returns (bitwise_neg (length dst * 8) dst operand) (λ r.
      (from_bytes r.1 ≡ (256 ^ length dst - from_bytes operand) % 256 ^ length dst)
      × ((r.0 ≡ true) ↔ (from_bytes operand ≢ 0)))
bitwise_neg-negates dst operand e g h =
    let n = length dst in
    let flipped = not_bytes n dst operand in
    let size = length-not_bytes n dst operand in
    let sum = not_bytes-sum dst operand e h in
    let plus = rw size at (increment_lem flipped (not_bytes-IsBytes n dst operand g)) in
    (
      increment n flipped,
      neg_runs dst operand,
      (
        ground (arith, plus.1, sum, complement_mod (256 ^ n) (from_bytes operand)),
        ground (arith, plus.0, sum),
      ),
    )
