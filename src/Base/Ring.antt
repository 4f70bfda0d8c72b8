-- ===== src/Base/Ring.antt =====
-- The slots of a ring: the place that a walk is at after some steps.
use Prim.Native.Nat.{ℕ, ◌+◌, ◌-◌, ◌<◌}
use mathlib.Core.Path.{◌≡◌}
use native.Mathlib.Decide.{dec_lt}
use native.Mathlib.Omega.{arith}
use toy_language.Base.Logic.{ltb, leb, if◌then◌else◌}

-- The slot that a walk from `first` looks at after `t` steps.
abbrev pub walked : ℕ → ℕ → ℕ → ℕ
walked capacity first t = if ltb (first + t) capacity then first + t else first + t - capacity

pub walked_bound :
    (capacity first t : ℕ) → first < capacity → t < capacity → walked capacity first t < capacity
walked_bound capacity first t h k = ground arith

pub walked_onto :
    (capacity first i : ℕ)
    → first < capacity
    → i < capacity
    → (s : ℕ) × (s < capacity) × (walked capacity first s ≡ i)
walked_onto capacity first i h k = elim (dec_lt i first) [
  | yes before ↦ (i + capacity - first, omega arith, ground arith)
  | no after ↦ (i - first, omega arith, ground arith)
]

-- How far it is from `i` on to `e`.
abbrev pub gap : ℕ → ℕ → ℕ → ℕ
gap capacity i e = if leb i e then e - i else e + capacity - i
