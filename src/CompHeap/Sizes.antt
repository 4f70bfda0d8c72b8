-- ===== src/CompHeap/Sizes.antt =====
-- Which free list of core/comp_heap.cpp is for which size, by way of `log2_ceil` of infra/math.hpp.
use toy_language.Base.{
  ltb, leb, ◌==◌, if◌then◌else◌, ltb→lt, leb→le, ==_iff, Bool-cases, ℕ, zero, suc, ◌-◌, ◌*◌, ◌^◌,
  ◌≤◌, ◌<◌, ◌≡◌, refl, ◌⊎◌, inl, inr, Bool, true, false, ◌&&◌, ◌||◌, not, arith,
}
use native.Mathlib.Decide.{ℕ_discrete}
use toy_language.CompHeap.{log2_ceil, bit_length, freelist_index, freelist_count}

-- The blocks of the list for a size are large enough, and at a size of 16 only, too large.
abbrev fits_list : ℕ → Bool
fits_list n =
    ltb (freelist_index n) 14
    && (leb n (16 * 2 ^ freelist_index n) && (not (leb 16 (2 ^ log2_ceil n - n)) || n == 16))

abbrev all_fit : ℕ → Bool
all_fit zero = true
all_fit (suc n) = let rest = all_fit n in if fits_list n then rest else false

all_fit-fits_list : (m n : ℕ) → all_fit m ≡ true → n < m → fits_list n ≡ true
all_fit-fits_list zero n all h = absurd (omega arith)
all_fit-fits_list (suc m) n all h = elim (Bool-cases (fits_list m)) [
  | inr fails ↦ cc (rw fails at all)
  | inl fits ↦ elim (ℕ_discrete n m) [
    | yes same ↦ rw same fits
    | no other ↦ all_fit-fits_list m n (rw fits at all) (omega arith)
  ]
]

pub record Sized (n : ℕ) : Type 0 where
  pub inside : freelist_index n < freelist_count
  pub enough : n ≤ 16 * 2 ^ freelist_index n
  pub rest : (leb 16 (2 ^ log2_ceil n - n) ≡ false) ⊎ (n ≡ 16)

Sized-of : (n : ℕ) → fits_list n ≡ true → Sized n
Sized-of n fits = elim (Bool-cases (ltb (freelist_index n) 14)) [
  | inr outside ↦ cc (rw outside at fits)
  | inl inside ↦ elim (Bool-cases (leb n (16 * 2 ^ freelist_index n))) [
    | inr short ↦ cc (rw (inside, short) at fits)
    | inl enough ↦ record {
      inside = ltb→lt (freelist_index n) 14 inside;
      enough = leb→le n (16 * 2 ^ freelist_index n) enough;
      rest = elim (Bool-cases (leb 16 (2 ^ log2_ceil n - n))) [
        | inr little ↦ inl little
        | inl much ↦ inr ((==_iff n 16).0 (rw (inside, enough, much) at fits))
      ];
    }
  ]
]

pub freelist_index-Sized : (n : ℕ) → n ≤ 18 → Sized n
unfolding log2_ceil bit_length
freelist_index-Sized n h = Sized-of n (all_fit-fits_list 19 n refl (omega arith))
