-- ===== src/Math/Align.antt =====
-- Powers of two and alignment.
use toy_language.Base.{w64, ℕ, ◌+◌, ◌-◌, ◌*◌, ◌/◌, ◌%◌, ◌^◌, ◌≤◌, ◌<◌, ◌≡◌, sym, ◌∙◌, arith}
use native.Mathlib.Nat.{one-le-pow, div-mul-le_self, lt-div-mul-add, mul-mod_left}
use toy_language.Base.Bits.{bit_and_top}
use toy_language.Math.{next_multiple, align_to}

-- `align_to` in arithmetic.
align_to-as_div :
    (n k : ℕ) → k ≤ 64 → n + 2 ^ k ≤ 2 ^ 64 → align_to n (2 ^ k) ≡ (n + 2 ^ k - 1) / 2 ^ k * 2 ^ k
unfolding align_to
align_to-as_div n k h fits =
    let low = one-le-pow k 2 (omega arith) in
    let size : ((n + 2 ^ k) % 2 ^ 64 + 2 ^ 64 - 1) % 2 ^ 64 ≡ n + 2 ^ k - 1 = omega arith in
    let mask : 2 ^ 64 - 1 - (2 ^ k + 2 ^ 64 - 1) % 2 ^ 64 ≡ 2 ^ 64 - 2 ^ k = omega arith in
    rw (size, mask, bit_and_top k (n + 2 ^ k - 1) h (omega arith))

next_multiple-as_div :
    (n factor : ℕ)
    → 0 < factor
    → n + factor < 2 ^ 64
    → next_multiple w64 n factor ≡ (n + factor - 1) / factor * factor
unfolding next_multiple
next_multiple-as_div n factor positive fits =
    let size : ((n + factor) % 2 ^ 64 + 2 ^ 64 - 1) % 2 ^ 64 ≡ n + factor - 1 = omega arith in
    rw size (omega (arith, div-mul-le_self (n + factor - 1) factor))

-- What rounding up to a multiple means.
pub record IsNextMultiple (n factor r : ℕ) : Type 0 where
  pub above : n ≤ r
  pub near : r < n + factor
  pub multiple : r % factor ≡ 0

-- For a positive factor, where `n + factor` does not reach 2^64, `next_multiple` gives the least
-- multiple of the factor that is not below `n`.
pub next_multiple-IsNextMultiple :
    (n factor : ℕ)
    → 0 < factor
    → n + factor < 2 ^ 64
    → IsNextMultiple n factor (next_multiple w64 n factor)
next_multiple-IsNextMultiple n factor positive fits =
    let x = n + factor - 1 in
    rw (next_multiple-as_div n factor positive fits) (record {
      above = omega (arith, lt-div-mul-add {a = x} positive);
      near = omega (arith, div-mul-le_self x factor);
      multiple = mul-mod_left (x / factor) factor;
    })

-- For an alignment that is a power of two below 2^64, where `n` plus the alignment does not reach
-- 2^64, the mask of `align_to` computes the same as the division of `next_multiple`.
pub align_to-next_multiple :
    (n k : ℕ) → k < 64 → n + 2 ^ k < 2 ^ 64 → align_to n (2 ^ k) ≡ next_multiple w64 n (2 ^ k)
align_to-next_multiple n k h fits =
    align_to-as_div n k (omega arith) (omega arith)
    ∙ sym (next_multiple-as_div n (2 ^ k) (one-le-pow k 2 (omega arith)) fits)
