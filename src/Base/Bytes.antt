-- ===== src/Base/Bytes.antt =====
-- Byte arrays and the little-endian numbers in them.
use Prim.Native.Nat.{ℕ, zero, suc, ◌+◌, ◌*◌, ◌/◌, ◌%◌, ◌^◌, ◌<◌}
use mathlib.Core.Path.{◌≡◌, refl, ap}
use mathlib.Core.List.{List, [], ◌∷◌}
use native.Mathlib.Nat.{pow-suc}
use native.Mathlib.Omega.{arith}
use toy_language.Base.Lists.{length}

abbrev pub IsBytes : List ℕ → Type 0
IsBytes [] = Unit
IsBytes (b ∷ bs) = (b < 256) × IsBytes bs

-- The number whose bytes stand in the list, the lowest first.
abbrev pub from_bytes : List ℕ → ℕ
from_bytes [] = 0
from_bytes (b ∷ bs) = b + 256 * from_bytes bs

-- The low `n` bytes of a number.
abbrev pub to_bytes : ℕ → ℕ → List ℕ
to_bytes zero v = []
to_bytes (suc n) v = v % 256 ∷ to_bytes n (v / 256)

-- `memcpy` of `source` to `target + offset`; what would stand past the end is dropped.
abbrev pub copy_to : List ℕ → ℕ → List ℕ → List ℕ
copy_to [] offset source = []
copy_to (t ∷ ts) zero [] = t ∷ ts
copy_to (t ∷ ts) zero (s ∷ ss) = s ∷ copy_to ts zero ss
copy_to (t ∷ ts) (suc offset) source = t ∷ copy_to ts offset source

pub length-to_bytes : (n v : ℕ) → length (to_bytes n v) ≡ n
length-to_bytes zero v = refl
length-to_bytes (suc n) v = ap suc (length-to_bytes n (v / 256))

pub to_bytes-IsBytes : (n v : ℕ) → IsBytes (to_bytes n v)
to_bytes-IsBytes zero v = tt
to_bytes-IsBytes (suc n) v = (omega arith, to_bytes-IsBytes n (v / 256))

pub from_bytes-lt : (bs : List ℕ) → IsBytes bs → from_bytes bs < 256 ^ length bs
from_bytes-lt [] h = omega arith
from_bytes-lt (b ∷ bs) (h, t) = omega (arith, pow-suc 256 (length bs), from_bytes-lt bs t)

pub from_bytes-to_bytes : (n v : ℕ) → v < 256 ^ n → from_bytes (to_bytes n v) ≡ v
from_bytes-to_bytes zero v h = omega arith
from_bytes-to_bytes (suc n) v h =
    omega (arith, from_bytes-to_bytes n (v / 256) (omega (arith, pow-suc 256 n)))

pub to_bytes-from_bytes : (bs : List ℕ) → IsBytes bs → to_bytes (length bs) (from_bytes bs) ≡ bs
to_bytes-from_bytes [] h = refl
to_bytes-from_bytes (b ∷ bs) (h, t) =
    let low : (b + 256 * from_bytes bs) % 256 ≡ b = omega arith in
    let high : (b + 256 * from_bytes bs) / 256 ≡ from_bytes bs = omega arith in
    rw (low, high, to_bytes-from_bytes bs t)

-- A copy of as many bytes as the target has replaces it.
pub copy_to-all : (ts ss : List ℕ) → length ts ≡ length ss → copy_to ts 0 ss ≡ ss
copy_to-all [] [] e = refl
copy_to-all [] (s ∷ ss) e = absurd (omega arith)
copy_to-all (t ∷ ts) [] e = absurd (omega arith)
copy_to-all (t ∷ ts) (s ∷ ss) e = ap (λ r. s ∷ r) (copy_to-all ts ss (omega arith))

pub length-copy_to : (ts : List ℕ) (i : ℕ) (ss : List ℕ) → length (copy_to ts i ss) ≡ length ts
length-copy_to [] i ss = refl
length-copy_to (t ∷ ts) zero [] = refl
length-copy_to (t ∷ ts) zero (s ∷ ss) = ap suc (length-copy_to ts zero ss)
length-copy_to (t ∷ ts) (suc i) ss = ap suc (length-copy_to ts i ss)
