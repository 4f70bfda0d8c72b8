-- ===== src/AstPool/Children.antt =====
-- The children that `AstDirectChildIterator` of core/ast_pool.cpp finds.
use toy_language.Base.{length, ℕ, zero, suc, ◌+◌, ◌≤◌, ◌≡◌, refl, some, List, ◌∷◌, arith}
use toy_language.AstPool.{
  Memory, first_child_of, next_sibling_of, direct_children_of, next_direct_child, direct_children,
}
use toy_language.AstPool.Layout.{Forest, nil, grow, extent, IsNode, StandsAt, place_of, roots}

direct_children_of-place :
    (memory : Memory) (place own : ℕ) (below beside : Forest)
    → IsNode memory place own below beside
    → direct_children_of memory place ≡ place_of (place + own) below
unfolding direct_children_of first_child_of
direct_children_of-place memory place own nil beside n = rw (n.children) refl
direct_children_of-place memory place own (grow o b s) beside n = rw (n.children, n.own_qwords) refl

next_direct_child-place :
    (memory : Memory) (place own : ℕ) (below beside : Forest)
    → IsNode memory place own below beside
    → next_direct_child memory place ≡ place_of (place + (own + extent below)) beside
unfolding next_direct_child next_sibling_of
next_direct_child-place memory place own below nil n = rw (n.sibling) refl
next_direct_child-place memory place own below (grow o b s) n = rw (n.sibling, n.offset) refl

step :
    (memory : Memory) (fuel place : ℕ) (places : List ℕ)
    → direct_children fuel memory (next_direct_child memory place) ≡ some places
    → direct_children (suc fuel) memory (some place) ≡ some (place ∷ places)
unfolding direct_children
step memory fuel place places h = rw h refl

direct_children-roots :
    (memory : Memory) (place fuel : ℕ) (forest : Forest)
    → StandsAt memory place forest
    → length (roots place forest) ≤ fuel
    → direct_children fuel memory (place_of place forest) ≡ some (roots place forest)
direct_children-roots memory place zero nil h k = unfold direct_children in refl
direct_children-roots memory place (suc fuel) nil h k = unfold direct_children in refl
direct_children-roots memory place zero (grow own below beside) h k = absurd (omega arith)
direct_children-roots memory place (suc fuel) (grow own below beside) (n, b, s) k =
    let after = place + (own + extent below) in
    step memory fuel place (roots after beside) (
      rw (next_direct_child-place memory place own below beside n)
        (direct_children-roots memory after fuel beside s (omega arith)))

-- For a node whose subtree stands in memory, iterating over its direct children, for at least as many
-- rounds as there are, ends, and gives the places of the roots of the trees below it, in their order.
pub direct_children_of-roots :
    (memory : Memory) (place own fuel : ℕ) (below beside : Forest)
    → StandsAt memory place (grow own below beside)
    → length (roots (place + own) below) ≤ fuel
    → direct_children fuel memory (direct_children_of memory place)
      ≡ some (roots (place + own) below)
direct_children_of-roots memory place own fuel below beside (n, b, s) k =
    rw (direct_children_of-place memory place own below beside n)
      (direct_children-roots memory (place + own) fuel below b k)
