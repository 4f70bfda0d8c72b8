-- ===== src/AstPool/Layout.antt =====
-- How core/ast_pool.cpp lays trees out: a node, then its children, then its next sibling.
use toy_language.Base.{
  ℕ, suc, ◌+◌, ◌<◌, ◌≡◌, Bool, true, false, Option, none, some, List, [], ◌∷◌, ◌++◌,
}
use Prim.Native.Nat.{max}
use toy_language.AstPool.{Memory, has_children, has_next_sibling}

-- Trees side by side. The first has a root of so many units of 8 bytes and the trees below it; the
-- others stand beside it.
pub data Forest : Type 0 where
  nil : Forest
  grow : ℕ → Forest → Forest → Forest

abbrev pub is_grown : Forest → Bool
is_grown nil = false
is_grown (grow own below beside) = true

abbrev pub extent : Forest → ℕ
extent nil = 0
extent (grow own below beside) = own + extent below + extent beside

abbrev pub count : Forest → ℕ
count nil = 0
count (grow own below beside) = suc (count below + count beside)

-- Its levels.
abbrev pub height : Forest → ℕ
height nil = 0
height (grow own below beside) = max (suc (height below)) (height beside)

-- The node at a place in memory is one of this size, with children and a next sibling or without.
pub record IsNode (memory : Memory) (place own : ℕ) (below beside : Forest) : Type 0 where
  pub positive : 0 < own
  pub own_qwords : (memory place).own_qwords ≡ own
  pub offset : (memory place).next_sibling_offset ≡ own + extent below
  pub children : has_children (memory place) ≡ is_grown below
  pub sibling : has_next_sibling (memory place) ≡ is_grown beside

-- The forest stands in memory from a place on.
abbrev pub StandsAt : Memory → ℕ → Forest → Type 0
StandsAt memory place nil = Unit {0}
StandsAt memory place (grow own below beside) =
    IsNode memory place own below beside
    × StandsAt memory (place + own) below
    × StandsAt memory (place + (own + extent below)) beside

-- The place of a forest, if it has a node.
abbrev pub place_of : ℕ → Forest → Option ℕ
place_of place nil = none
place_of place (grow own below beside) = some place

-- The places of its roots.
abbrev pub roots : ℕ → Forest → List ℕ
roots place nil = []
roots place (grow own below beside) = place ∷ roots (place + (own + extent below)) beside

-- The places of its nodes and their depths, each before what is below it.
abbrev pub visits : ℕ → ℕ → Forest → List (ℕ × ℕ)
visits place depth nil = []
visits place depth (grow own below beside) =
    (place, depth) ∷ visits (place + own) (depth + 1) below
    ++ visits (place + (own + extent below)) depth beside
