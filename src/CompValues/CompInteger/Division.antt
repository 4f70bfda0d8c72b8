-- ===== src/CompValues/CompInteger/Division.antt =====
-- Negation, division and remainder of compile-time integers.
use toy_language.Base.{
  ◌==◌, Bool-cases, Run, returns, w64, to_s, ◌-ℤ◌, quot_ℤ, rem_ℤ, ℤ, pos, negsuc, leb_ℤ, ℕ, ◌/◌,
  ◌^◌, ◌≡◌, refl, sym, ap, ◌≢◌, ◌↔◌, ◌⊎◌, inl, inr, false, ◌&&◌, Option, none, some, arith,
}
use toy_language.CompValues.CompInteger.{
  CompIntegerValue, comp_integer_min, shifted, comp_integer_neg, comp_integer_div, comp_integer_mod,
}
use toy_language.CompValues.CompInteger.Value.{
  IsInlined, value, IsSupported, Represents, Computes, shifted-Represents, rep_twice,
}

negated-Represents :
    (c : CompIntegerValue)
    → IsInlined c
    → c.rep ≢ 2 ^ 63
    → Represents (pos 0 -ℤ value c) (shifted (pos 0 -ℤ to_s w64 (c.rep / 2)))
unfolding ◌-ℤ◌
negated-Represents c h ne = ground arith

negated_range :
    (c : CompIntegerValue) → IsInlined c → IsSupported (pos 0 -ℤ value c) ↔ (c.rep ≢ 2 ^ 63)
unfolding ◌-ℤ◌
negated_range c h = ground arith

-- `comp_integer_neg` of an inlined value flips the sign, and panics if the result is not
-- supported.
pub comp_integer_neg-Computes :
    (c : CompIntegerValue) → IsInlined c → Computes (pos 0 -ℤ value c) (comp_integer_neg c)
unfolding comp_integer_neg
comp_integer_neg-Computes c h = elim (Bool-cases (c.rep == 2 ^ 63)) [
  | inl least ↦
      rw (h.1, least)
        (record {
          supported = λ s. absurd ((negated_range c h).0 s (ground arith));
          unsupported = λ n. refl;
        })
  | inr other ↦
      rw (h.1, other)
        (record {
          supported = λ s. (_, refl, negated-Represents c h (ground arith));
          unsupported = λ n. absurd (n ((negated_range c h).1 (ground arith)));
        })
]

not_zero : (v : ℤ) → v ≢ pos 0 → (leb_ℤ v (pos 0) && leb_ℤ (pos 0) v) ≡ false
not_zero v n = ground arith

-- The result of an operation that returns `false` at a divisor of 0.
pub record Divides (v : ℤ) (divisor : ℤ) (run : Run (Option CompIntegerValue)) : Type 0 where
  pub by_zero : divisor ≡ pos 0 → run ≡ returns none
  pub otherwise :
      divisor ≢ pos 0 → (r : CompIntegerValue) × (run ≡ returns (some r)) × Represents v r

quot_range :
    (a b : ℤ)
    → IsSupported a
    → b ≢ pos 0
    → (a ≢ comp_integer_min) ⊎ (b ≢ negsuc 0)
    → IsSupported (quot_ℤ a b)
unfolding quot_ℤ
quot_range (pos a) (pos b) s n m = ground arith
quot_range (pos a) (negsuc b) s n m = ground arith
quot_range (negsuc a) (pos b) s n m = ground arith
quot_range (negsuc a) (negsuc b) s n m = ground arith

rem_range : (a b : ℤ) → IsSupported a → b ≢ pos 0 → IsSupported (rem_ℤ a b)
unfolding rem_ℤ
rem_range (pos a) (pos b) s n = ground arith
rem_range (pos a) (negsuc b) s n = ground arith
rem_range (negsuc a) (pos b) s n = ground arith
rem_range (negsuc a) (negsuc b) s n = ground arith

-- `comp_integer_div` of inlined values gives the quotient rounded towards zero, and `false` at a
-- divisor of 0. The least value over -1 is left out.
pub comp_integer_div-Divides :
    (a b : CompIntegerValue)
    → IsInlined a
    → IsInlined b
    → (value a ≢ comp_integer_min) ⊎ (value b ≢ negsuc 0)
    → Divides (quot_ℤ (value a) (value b)) (value b) (comp_integer_div a b)
unfolding comp_integer_div
comp_integer_div-Divides a b p q least =
    rw (p.1, q.1)
      (record {
        by_zero = λ z. rw z;
        otherwise = λ n. (
          _,
          rw (not_zero (value b) n),
          shifted-Represents (quot_ℤ (value a) (value b))
              (quot_range (value a) (value b) (rep_twice a p).2 n least),
        );
      })

-- `comp_integer_mod` of inlined values gives the remainder with the sign of the dividend, and
-- `false` at a divisor of 0.
pub comp_integer_mod-Divides :
    (a b : CompIntegerValue)
    → IsInlined a
    → IsInlined b
    → Divides (rem_ℤ (value a) (value b)) (value b) (comp_integer_mod a b)
unfolding comp_integer_mod
comp_integer_mod-Divides a b p q =
    rw (p.1, q.1)
      (record {
        by_zero = λ z. rw z;
        otherwise = λ n. (
          _,
          rw (not_zero (value b) n),
          shifted-Represents (rem_ℤ (value a) (value b))
              (rem_range (value a) (value b) (rep_twice a p).2 n),
        );
      })

-- Division of the least value by -1 gives the least value back: the quotient is not supported, and
-- nothing tests for that.
pub comp_integer_div-wraps :
    (a b : CompIntegerValue)
    → IsInlined a
    → IsInlined b
    → value a ≡ comp_integer_min
    → value b ≡ negsuc 0
    → comp_integer_div a b ≡ returns (some a)
unfolding comp_integer_div quot_ℤ
comp_integer_div-wraps a b p q l m =
    let least : a.rep ≡ 2 ^ 63 = ground arith in
    rw (p.1, q.1, m, l) (ap (λ (r : ℕ). returns (some (record { rep = r }))) (sym least))
