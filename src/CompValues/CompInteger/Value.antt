-- ===== src/CompValues/CompInteger/Value.antt =====
-- The exact integers that compile-time integers of core/comp_values.cpp stand for, and the sum, the
-- difference and the product.
use toy_language.Base.{
  Run, panic, Returns, w64, min_s, max_s, FitsS, to_u, to_s, ◌+ℤ◌, ◌-ℤ◌, ◌*ℤ◌, ℤ, pos, pos_part,
  neg_part, ◌≤ℤ◌, +ℤ_parts, -ℤ_parts, *ℤ_parts, eq_of_parts, ℕ, ◌*◌, ◌%◌, ◌^◌, ◌<◌, ◌≡◌, refl, ap,
  ◌∙◌, ◌≢◌, ◌↔◌, ◌⊎◌, inr, Bool, true, false, arith,
}
use mathlib.Core.Path.{ap₂}
use toy_language.CompValues.Checked.Exact.{
  ExactS, add_checked_s-Exact, sub_checked_s-Exact, mul_checked_s-Exact,
}
use toy_language.CompValues.CompInteger.{
  CompIntegerValue, comp_integer_min, comp_integer_max, s64_value, shifted, checked_rep,
  comp_integer_add, comp_integer_sub, comp_integer_mul,
}

-- A `rep` that the code can hold and does not take for a pointer.
abbrev pub IsInlined : CompIntegerValue → Type 0
IsInlined c = (c.rep < 2 ^ 64) × (c.rep % 2 ≡ 0)

-- The integer that a `CompIntegerValue` stands for.
abbrev pub value : CompIntegerValue → ℤ
value c = s64_value c

-- The supported range.
abbrev pub IsSupported : ℤ → Type 0
IsSupported v = (comp_integer_min ≤ℤ v) × (v ≤ℤ pos comp_integer_max)

-- `c` stands for `v`.
pub record Represents (v : ℤ) (c : CompIntegerValue) : Type 0 where
  pub inlined : IsInlined c
  pub means : value c ≡ v

-- A run that gives `v` if that is supported, and panics if not.
pub record Computes (v : ℤ) (run : Run CompIntegerValue) : Type 0 where
  pub supported : IsSupported v → Returns run (Represents v)
  pub unsupported : ¬ (IsSupported v) → run ≡ panic

-- The `rep` of an inlined value is twice its value, as an `s64`.
pub rep_twice :
    (c : CompIntegerValue)
    → IsInlined c
    → (to_s w64 c.rep ≡ value c +ℤ value c) × FitsS w64 (to_s w64 c.rep) × IsSupported (value c)
unfolding ◌+ℤ◌
rep_twice c h = ground arith

pub shifted-Represents : (v : ℤ) → IsSupported v → Represents v (shifted v)
shifted-Represents v h = ground arith

doubled-Represents :
    (v w : ℤ) → w ≡ v +ℤ v → IsSupported v → Represents v (record { rep = to_u w64 w })
unfolding ◌+ℤ◌
doubled-Represents v w twice h = ground arith

doubled_range : (v w : ℤ) → w ≡ v +ℤ v → IsSupported v ↔ (min_s w64 ≤ℤ w) × (w ≤ℤ max_s w64)
doubled_range v w twice = (
  omega (arith, +ℤ_parts v v, ap pos_part twice, ap neg_part twice),
  omega (arith, +ℤ_parts v v, ap pos_part twice, ap neg_part twice),
)

s64_fits : (v : ℤ) → IsSupported v → FitsS w64 v
s64_fits v h = omega arith

twice_sum : (x y : ℤ) → x +ℤ x +ℤ (y +ℤ y) ≡ x +ℤ y +ℤ (x +ℤ y)
twice_sum x y = omega (arith, +ℤ_parts, eq_of_parts)

twice_difference : (x y : ℤ) → x +ℤ x -ℤ (y +ℤ y) ≡ x -ℤ y +ℤ (x -ℤ y)
twice_difference x y = omega (arith, +ℤ_parts, -ℤ_parts, eq_of_parts)

twice_parts : (x : ℤ) → (pos_part (x +ℤ x) ≡ 2 * pos_part x) × (neg_part (x +ℤ x) ≡ 2 * neg_part x)
unfolding ◌+ℤ◌
twice_parts x = ground arith

twice_product : (x y : ℤ) → (x +ℤ x) *ℤ y ≡ x *ℤ y +ℤ x *ℤ y
twice_product x y =
    let (p, n) = twice_parts x in
    omega (
      arith,
      eq_of_parts,
      *ℤ_parts (x +ℤ x) y,
      *ℤ_parts x y,
      +ℤ_parts (x *ℤ y) (x *ℤ y),
      ap (λ (t : ℕ). t * pos_part y) p,
      ap (λ (t : ℕ). t * neg_part y) p,
      ap (λ (t : ℕ). t * pos_part y) n,
      ap (λ (t : ℕ). t * neg_part y) n,
    )

-- A checked operation on `rep`s whose exact result is twice `v`.
checked_rep-Computes :
    (v w : ℤ) (r : Bool × ℤ) → ExactS w64 w r → w ≡ v +ℤ v → Computes v (checked_rep r)
checked_rep-Computes v w (true, out) exact twice = record {
  supported = λ s. (_, refl, doubled-Represents v out (exact.stores refl ∙ twice) s);
  unsupported = λ n. absurd (n ((doubled_range v w twice).1 (exact.reports.0 refl)));
}
checked_rep-Computes v w (false, out) exact twice = record {
  supported = λ s. absurd (cc (exact.reports.1 ((doubled_range v w twice).0 s)));
  unsupported = λ n. refl;
}

-- `comp_integer_add` of inlined values gives the sum, and panics if that is not supported.
pub comp_integer_add-Computes :
    (a b : CompIntegerValue)
    → IsInlined a
    → IsInlined b
    → Computes (value a +ℤ value b) (comp_integer_add a b)
unfolding comp_integer_add
comp_integer_add-Computes a b p q =
    let (l, l_fits, _) = rep_twice a p in
    let (r, r_fits, _) = rep_twice b q in
    rw (p.1, q.1)
      (checked_rep-Computes (value a +ℤ value b) (to_s w64 a.rep +ℤ to_s w64 b.rep) _
        (add_checked_s-Exact w64 _ _ l_fits r_fits) (ap₂ ◌+ℤ◌ l r ∙ twice_sum (value a) (value b)))

-- `comp_integer_sub` of inlined values gives the difference, and panics if that is not supported,
-- unless the least value is subtracted from 0.
pub comp_integer_sub-Computes :
    (a b : CompIntegerValue)
    → IsInlined a
    → IsInlined b
    → (value a ≢ pos 0) ⊎ (value b ≢ comp_integer_min)
    → Computes (value a -ℤ value b) (comp_integer_sub a b)
unfolding comp_integer_sub
comp_integer_sub-Computes a b p q least =
    let (l, l_fits, _) = rep_twice a p in
    let (r, r_fits, _) = rep_twice b q in
    rw (p.1, q.1)
      (checked_rep-Computes (value a -ℤ value b) (to_s w64 a.rep -ℤ to_s w64 b.rep) _
        (sub_checked_s-Exact w64 _ _ l_fits r_fits (cc) (inr (ground arith)))
        (ap₂ ◌-ℤ◌ l r ∙ twice_difference (value a) (value b)))

-- `comp_integer_mul` of inlined values gives the product, and panics if that is not supported.
pub comp_integer_mul-Computes :
    (a b : CompIntegerValue)
    → IsInlined a
    → IsInlined b
    → Computes (value a *ℤ value b) (comp_integer_mul a b)
unfolding comp_integer_mul
comp_integer_mul-Computes a b p q =
    let (l, l_fits, _) = rep_twice a p in
    let (_, _, r_fits) = rep_twice b q in
    rw (p.1, q.1)
      (checked_rep-Computes (value a *ℤ value b) (to_s w64 a.rep *ℤ value b) _
        (mul_checked_s-Exact w64 _ _ l_fits (s64_fits (value b) r_fits))
        (ap (λ (t : ℤ). t *ℤ value b) l ∙ twice_product (value a) (value b)))
