-- ===== src/Hash.antt =====
-- infra/hash.hpp: the 32-bit FNV-1a hash.
use toy_language.Base.{ℕ, ◌*◌, ◌%◌, ◌^◌, bit_xor, List, [], ◌∷◌}

abbrev pub fnv1a_seed : ℕ
fnv1a_seed = 2166136261

-- `(seed * 16777619) ^ next`, in `u32`.
unfoldable pub fnv1a_step : ℕ → ℕ → ℕ
fnv1a_step seed next = bit_xor (seed * 16777619 % 2 ^ 32) next

unfoldable pub fnv1a_steps : ℕ → List ℕ → ℕ
unfolding fnv1a_step
fnv1a_steps seed [] = seed
fnv1a_steps seed (next ∷ rest) = fnv1a_steps (fnv1a_step seed next) rest

unfoldable pub fnv1a : List ℕ → ℕ
unfolding fnv1a_steps
fnv1a bytes = fnv1a_steps fnv1a_seed bytes
