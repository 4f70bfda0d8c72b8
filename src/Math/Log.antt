-- ===== src/Math/Log.antt =====
-- `log10_ceil` counts decimal digits.
use toy_language.Base.{
  leb, lt→ltb, leb→le, Bool-cases, ℕ, zero, suc, ◌+◌, ◌*◌, ◌%◌, ◌^◌, ◌≤◌, ◌<◌, ◌≡◌, refl, ◌∙◌, ◌⊎◌,
  inl, inr, true, false, some, arith,
}
use native.Mathlib.Nat.{pow-suc, pow-le-pow_right}
use native.Mathlib.Numerals.{add-one}
use toy_language.Math.{log10_loop, log10_ceil}

-- `d + 1` digits write `n`, and no fewer do.
abbrev pub HasDigits : ℕ → ℕ → Type 0
HasDigits n d = (n < 10 ^ suc d) × ((d ≡ 0) ⊎ (10 ^ d ≤ n))

one_round :
    (fuel n m prev rst : ℕ)
    → leb m n ≡ true
    → prev < m
    → log10_loop (suc fuel) n m prev rst ≡ log10_loop fuel n (m * 10 % 2 ^ 64) m (suc rst)
unfolding log10_loop
one_round fuel n m prev rst go p = rw (go, lt→ltb prev m p, add-one rst)

stops : (fuel n m prev rst : ℕ) → leb m n ≡ false → log10_loop (suc fuel) n m prev rst ≡ some rst
unfolding log10_loop
stops fuel n m prev rst stop = rw stop

-- The last round: `m` has wrapped, which the test against `prev_m` notices.
last_round :
    (n : ℕ) → n < 2 ^ 64 → 10 ^ 19 ≤ n → log10_loop 1 n (10 ^ 20 % 2 ^ 64) (10 ^ 19) 20 ≡ some 20
unfolding log10_loop
last_round n h p = ground arith

-- The loop with `m` at a power of ten.
digits_from :
    (fuel d prev n : ℕ)
    → d + fuel ≡ 19
    → n < 2 ^ 64
    → prev < 10 ^ suc d
    → (d ≡ 0) ⊎ ((prev ≡ 10 ^ d) × (10 ^ d ≤ n))
    → (e : ℕ) × (log10_loop (suc fuel) n (10 ^ suc d % 2 ^ 64) prev (suc d) ≡ some (suc e))
      × HasDigits n e
digits_from zero d prev n e h p (inl z) = absurd (omega arith)
digits_from zero d prev n e h p (inr (q, r)) =
    let nineteen : d ≡ 19 = omega arith in
    (
      19,
      rw (q, nineteen) (last_round n h (rw nineteen at r)),
      (omega arith, inr (rw nineteen at r)),
    )
digits_from (suc fuel) d prev n e h p old =
    let room : 10 ^ suc d ≤ 10 ^ 19 =
      pow-le-pow_right (omega arith) {i = suc d} {j = 19} (omega arith) in
    let same : 10 ^ suc d % 2 ^ 64 ≡ 10 ^ suc d = omega arith in
    elim (Bool-cases (leb (10 ^ suc d) n)) [
      | inl go ↦
          let again : log10_loop (suc (suc fuel)) n (10 ^ suc d % 2 ^ 64) prev (suc d)
              ≡ log10_loop (suc fuel) n (10 ^ suc (suc d) % 2 ^ 64) (10 ^ suc d) (suc (suc d)) =
            rw (same, pow-suc 10 (suc d)) (one_round (suc fuel) n (10 ^ suc d) prev (suc d) go p) in
          let (k, run, digits) =
            digits_from fuel (suc d) (10 ^ suc d) n (omega arith) h
              (omega (arith, pow-suc 10 (suc d))) (inr (refl, leb→le _ _ go)) in
          (k, again ∙ run, digits)
      | inr stop ↦ (
        d,
        rw same (stops (suc fuel) n (10 ^ suc d) prev (suc d) stop),
        (ground arith, elim old [ inl z ↦ inl z | inr (_, below) ↦ inr below ]),
      )
    ]

-- `log10_ceil` of a `u64` ends, and gives the number of its decimal digits.
pub log10_ceil-HasDigits :
    (n : ℕ) → n < 2 ^ 64 → (d : ℕ) × (log10_ceil n ≡ some (suc d)) × HasDigits n d
unfolding log10_ceil
log10_ceil-HasDigits n h = digits_from 19 0 0 n refl h (omega arith) (inl refl)
