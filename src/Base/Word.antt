-- ===== src/Base/Word.antt =====
-- The fixed-width integers of infra/types.hpp: their ranges and the casts between them. A `uN` is
-- a natural number below `modulus`, an `sN` an integer between `min_s` and `max_s`.
use Prim.Native.Nat.{ℕ, ◌-◌, ◌%◌, ◌^◌, ◌<◌}
use mathlib.Core.Path.{◌≡◌}
use native.Mathlib.Omega.{arith}
use toy_language.Base.Logic.{ltb, if◌then◌else◌}
use toy_language.Base.Int.{ℤ, pos, negsuc, ◌≤ℤ◌}

pub data Width : Type 0 where
  w8 w16 w32 w64 : Width

abbrev pub bits : Width → ℕ
bits w8 = 8
bits w16 = 16
bits w32 = 32
bits w64 = 64

abbrev pub modulus : Width → ℕ
modulus w8 = 2 ^ 8
modulus w16 = 2 ^ 16
modulus w32 = 2 ^ 32
modulus w64 = 2 ^ 64

abbrev pub half : Width → ℕ
half w8 = 2 ^ 7
half w16 = 2 ^ 15
half w32 = 2 ^ 31
half w64 = 2 ^ 63

abbrev pub min_s : Width → ℤ
min_s w = negsuc (half w - 1)

abbrev pub max_s : Width → ℤ
max_s w = pos (half w - 1)

abbrev pub max_u : Width → ℤ
max_u w = pos (modulus w - 1)

abbrev pub FitsU : Width → ℕ → Type 0
FitsU w n = n < modulus w

abbrev pub FitsS : Width → ℤ → Type 0
FitsS w a = (min_s w ≤ℤ a) × (a ≤ℤ max_s w)

-- `static_cast<uN>` of an integer.
abbrev pub to_u : Width → ℤ → ℕ
to_u w (pos n) = n % modulus w
to_u w (negsuc n) = modulus w - 1 - n % modulus w

-- `static_cast<sN>` of an unsigned value: its low bits in two's complement.
abbrev pub to_s : Width → ℕ → ℤ
to_s w n = let m = n % modulus w in if ltb m (half w) then pos m else negsuc (modulus w - 1 - m)

-- `static_cast<sN>` of a signed value.
abbrev pub wrap_s : Width → ℤ → ℤ
wrap_s w a = to_s w (to_u w a)

pub to_u-FitsU : (w : Width) (a : ℤ) → FitsU w (to_u w a)
to_u-FitsU w8 a = ground arith
to_u-FitsU w16 a = ground arith
to_u-FitsU w32 a = ground arith
to_u-FitsU w64 a = ground arith

pub to_s-FitsS : (w : Width) (n : ℕ) → FitsS w (to_s w n)
to_s-FitsS w8 n = ground arith
to_s-FitsS w16 n = ground arith
to_s-FitsS w32 n = ground arith
to_s-FitsS w64 n = ground arith

pub to_s-to_u : (w : Width) (a : ℤ) → FitsS w a → to_s w (to_u w a) ≡ a
to_s-to_u w8 a h = ground arith
to_s-to_u w16 a h = ground arith
to_s-to_u w32 a h = ground arith
to_s-to_u w64 a h = ground arith

pub to_u-to_s : (w : Width) (n : ℕ) → FitsU w n → to_u w (to_s w n) ≡ n
to_u-to_s w8 n h = ground arith
to_u-to_s w16 n h = ground arith
to_u-to_s w32 n h = ground arith
to_u-to_s w64 n h = ground arith
