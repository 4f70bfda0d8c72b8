-- ===== src/Math/Power.antt =====
-- `next_pow2` and `is_pow2`.
use toy_language.Base.{
  lt→ltb, le→ltb, Width, w8, w16, w32, w64, bits, modulus, half, ℕ, zero, suc, ◌+◌, ◌-◌, ◌*◌, ◌%◌,
  ◌^◌, ◌≤◌, ◌<◌, ◌≡◌, refl, ap, ◌∙◌, ◌⊎◌, inl, inr, none, some, arith,
}
use native.Mathlib.Nat.{pow-suc, pow-le-pow_right, mul_comm, add-zero}
use native.Mathlib.Decide.{dec_lt}
use toy_language.Math.{double_until, next_pow2}

-- `r` is the least power of two that is not below `n`.
pub record IsNextPow2 (n r : ℕ) : Type 0 where
  pub exponent : ℕ
  pub power : r ≡ 2 ^ exponent
  pub above : n ≤ r
  pub least : (j : ℕ) → n ≤ 2 ^ j → r ≤ 2 ^ j

half_power : (w : Width) → 2 ^ (bits w - 1) ≡ half w
half_power w8 = refl
half_power w16 = refl
half_power w32 = refl
half_power w64 = refl

double_wrap : (w : Width) (n e : ℕ) → e < n → n ≤ half w → e * 2 % modulus w ≡ 2 * e
double_wrap w8 n e p h = omega arith
double_wrap w16 n e p h = omega arith
double_wrap w32 n e p h = omega arith
double_wrap w64 n e p h = omega arith

double_once :
    (w : Width) (fuel n i : ℕ)
    → 2 ^ i < n
    → n ≤ half w
    → double_until w (suc fuel) n (2 ^ i) ≡ double_until w fuel n (2 ^ suc i)
unfolding double_until
double_once w fuel n i p h =
    rw (lt→ltb (2 ^ i) n p, double_wrap w n (2 ^ i) p h, pow-suc 2 i, mul_comm 2 (2 ^ i))

stop_at : (w : Width) (fuel n e : ℕ) → n ≤ e → double_until w (suc fuel) n e ≡ some e
unfolding double_until
stop_at w fuel n e h = rw (le→ltb e n h)

next_at : (i n : ℕ) → n ≤ 2 ^ i → ((j : ℕ) → n ≤ 2 ^ j → i ≤ j) → IsNextPow2 n (2 ^ i)
next_at i n stop passed = record {
  exponent = i;
  power = refl;
  above = stop;
  least = λ j q. pow-le-pow_right (omega arith) {i = i} {j = j} (passed j q);
}

one_more : (i n j : ℕ) → 2 ^ i < n → n ≤ 2 ^ j → i ≤ j → suc i ≤ j
one_more i n j p q h = elim (dec_lt i j) [
  | yes r ↦ r
  | no r ↦ let same : i ≡ j = omega arith in absurd (omega (arith, ap (λ (t : ℕ). 2 ^ t) same))
]

-- With the loop at `2 ^ i`, every lower power of two is below `n`.
double_until-IsNextPow2 :
    (w : Width) (fuel i n : ℕ)
    → n ≤ half w
    → n ≤ 2 ^ (i + fuel)
    → ((j : ℕ) → n ≤ 2 ^ j → i ≤ j)
    → (r : ℕ) × (double_until w (suc fuel) n (2 ^ i) ≡ some r) × IsNextPow2 n r
double_until-IsNextPow2 w zero i n h reach passed =
    let stop : n ≤ 2 ^ i = rw (add-zero i) at reach in
    (2 ^ i, stop_at w zero n (2 ^ i) stop, next_at i n stop passed)
double_until-IsNextPow2 w (suc fuel) i n h reach passed = elim (dec_lt (2 ^ i) n) [
  | no p ↦
      let stop : n ≤ 2 ^ i = omega arith in
      (2 ^ i, stop_at w (suc fuel) n (2 ^ i) stop, next_at i n stop passed)
  | yes p ↦
      let further : i + suc fuel ≡ suc i + fuel = omega arith in
      let (r, run, spec) =
        double_until-IsNextPow2 w fuel (suc i) n h (rw further at reach)
          (λ j q. one_more i n j p q (passed j q)) in
      (r, double_once w (suc fuel) n i p h ∙ run, spec)
]

-- `next_pow2` at any width, of a value up to half the range of the type, ends, and gives the least
-- power of two that is not below the value.
pub next_pow2-IsNextPow2 :
    (w : Width) (n : ℕ) → n ≤ half w → (r : ℕ) × (next_pow2 w n 1 ≡ some r) × IsNextPow2 n r
unfolding next_pow2
next_pow2-IsNextPow2 w8 n h = double_until-IsNextPow2 w8 7 0 n h h (λ j q. omega arith)
next_pow2-IsNextPow2 w16 n h = double_until-IsNextPow2 w16 15 0 n h h (λ j q. omega arith)
next_pow2-IsNextPow2 w32 n h = double_until-IsNextPow2 w32 31 0 n h h (λ j q. omega arith)
next_pow2-IsNextPow2 w64 n h = double_until-IsNextPow2 w64 63 0 n h h (λ j q. omega arith)

power_fits : (w : Width) (i : ℕ) → i < bits w → 2 ^ i ≤ half w
power_fits w i h =
    rw (← half_power w) (pow-le-pow_right (omega arith) {i = i} {j = bits w - 1} (omega arith))

zero_wraps : (w : Width) → 0 * 2 % modulus w ≡ 0
zero_wraps w8 = refl
zero_wraps w16 = refl
zero_wraps w32 = refl
zero_wraps w64 = refl

half_wraps : (w : Width) → half w * 2 % modulus w ≡ 0
half_wraps w8 = refl
half_wraps w16 = refl
half_wraps w32 = refl
half_wraps w64 = refl

doubles : (w : Width) (i : ℕ) → 2 ^ suc i ≤ half w → 2 ^ i * 2 % modulus w ≡ 2 ^ suc i
doubles w8 i h = omega (arith, pow-suc 2 i)
doubles w16 i h = omega (arith, pow-suc 2 i)
doubles w32 i h = omega (arith, pow-suc 2 i)
doubles w64 i h = omega (arith, pow-suc 2 i)

-- What the loop can hold: a power of two that fits the type, or 0.
abbrev pub IsEstimate : Width → ℕ → Type 0
IsEstimate w e = (e ≡ 0) ⊎ ((i : ℕ) × (e ≡ 2 ^ i) × (i < bits w))

IsEstimate-double : (w : Width) (e : ℕ) → IsEstimate w e → IsEstimate w (e * 2 % modulus w)
IsEstimate-double w e (inl z) = inl (rw z (zero_wraps w))
IsEstimate-double w e (inr (i, p, h)) = elim (dec_lt (suc i) (bits w)) [
  | yes q ↦
      let room : 2 ^ suc i ≤ half w = power_fits w (suc i) q in
      inr (suc i, rw p (doubles w i room), q)
  | no q ↦ let top : i ≡ bits w - 1 = omega arith in inl (rw (p, top, half_power w) (half_wraps w))
]

IsEstimate-lt : (w : Width) (n e : ℕ) → IsEstimate w e → half w < n → e < n
IsEstimate-lt w n e (inl z) h = omega arith
IsEstimate-lt w n e (inr (i, p, q)) h = omega (arith, power_fits w i q)

-- For a value above half the range of the type, the loop of `next_pow2`, at a power of two that
-- fits the type or at 0, has not ended after any number of rounds.
pub double_until-diverges :
    (w : Width) (fuel n e : ℕ) → half w < n → IsEstimate w e → double_until w fuel n e ≡ none
unfolding double_until
double_until-diverges w zero n e h s = refl
double_until-diverges w (suc fuel) n e h s =
    rw (lt→ltb e n (IsEstimate-lt w n e s h))
      (double_until-diverges w fuel n (e * 2 % modulus w) h (IsEstimate-double w e s))
