-- ===== src/Math.antt =====
-- infra/math.hpp: powers of two, alignment and decimal digit counts, for unsigned types.
pub mod Align
pub mod Log
pub mod Power
use toy_language.Base.{
  ltb, leb, ◌==◌, if◌then◌else◌, ltb→lt, ltb→le, lt→ltb, le→ltb, leb→le, ==_iff, Bool-cases,
  Option-cases, Run, returns, panic, undefined, ◌>>=◌, ◌>>◌, panic_if, undefined_if, Returns,
  length, get_elem?, get_or, set, take, drop, replicate, length-append, length-set,
  length-replicate, get_or-set_self, get_or-set_ne, get_or-replicate, get_or_ext, Width, w8, w16,
  w32, w64, bits, modulus, half, min_s, max_s, max_u, FitsU, FitsS, to_u, to_s, wrap_s, to_u-FitsU,
  to_s-FitsS, to_s-to_u, to_u-to_s, ◌+ℤ◌, ◌-ℤ◌, ◌*ℤ◌, quot_ℤ, rem_ℤ, ℤ, pos, negsuc, pos_part,
  neg_part, sub_ℕ, ◌≤ℤ◌, ◌<ℤ◌, ltb_ℤ, leb_ℤ, neg_ℕ, +ℤ_parts, -ℤ_parts, eq_of_parts, ℕ, zero, suc,
  ◌+◌, ◌-◌, ◌*◌, ◌/◌, ◌%◌, ◌^◌, ◌≤◌, ◌<◌, bit_and, bit_or, bit_xor, ◌≡◌, refl, sym, ap, ◌∙◌, ◌≢◌,
  ◌↔◌, ◌⊎◌, inl, inr, Bool, true, false, ◌&&◌, ◌||◌, not, Option, none, some, List, [], ◌∷◌, ◌++◌,
  map, arith,
}

-- `n & (n - 1)`, where `n - 1` wraps at the width of the type.
unfoldable pub is_pow2 : Width → ℕ → Bool
is_pow2 w n = bit_and n ((n + modulus w - 1) % modulus w) == 0

-- `while (estimate < n) estimate *= 2;` with fuel. `none` means that the fuel ran out.
unfoldable pub double_until : Width → ℕ → ℕ → ℕ → Option ℕ
double_until w zero n estimate = none
double_until w (suc fuel) n estimate =
    let rest = double_until w fuel n (estimate * 2 % modulus w) in
    if ltb estimate n then rest else some estimate

-- A power of two reaches the top bit in as many rounds as the type has bits.
unfoldable pub next_pow2 : Width → ℕ → ℕ → Option ℕ
unfolding double_until
next_pow2 w n estimate = double_until w (bits w) n estimate

unfoldable pub next_multiple : Width → ℕ → ℕ → ℕ
next_multiple w n factor =
    ((n + factor) % modulus w + modulus w - 1) % modulus w / factor * factor % modulus w

-- `(n + alignment - 1) & ~(alignment - 1)` in `u64`.
unfoldable pub align_to : ℕ → ℕ → ℕ
align_to n alignment =
    bit_and (((n + alignment) % 2 ^ 64 + 2 ^ 64 - 1) % 2 ^ 64)
      (2 ^ 64 - 1 - (alignment + 2 ^ 64 - 1) % 2 ^ 64)

-- The loop of `log10_ceil`, with fuel; `m *= 10` wraps.
unfoldable pub log10_loop : ℕ → ℕ → ℕ → ℕ → ℕ → Option ℕ
log10_loop zero target m prev_m rst = none
log10_loop (suc fuel) target m prev_m rst =
    let rest = log10_loop fuel target (m * 10 % 2 ^ 64) m (rst + 1) in
    if leb m target && ltb prev_m m then rest else some rst

-- 20 rounds are enough: the largest `u64` has 20 digits.
unfoldable pub log10_ceil : ℕ → Option ℕ
unfolding log10_loop
log10_ceil n = log10_loop 20 n 10 0 1
