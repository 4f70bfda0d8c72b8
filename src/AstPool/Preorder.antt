-- ===== src/AstPool/Preorder.antt =====
-- The nodes that `AstPreorderIterator` and `AstFlatIterator` of core/ast_pool.cpp find.
use toy_language.Base.{
  lt→ltb, length, Bool, false, ℕ, zero, suc, ◌+◌, ◌-◌, ◌≤◌, ◌≡◌, refl, sym, ap, true, some, List,
  [], ◌∷◌, ◌++◌, arith,
}
use mathlib.Core.List.{append_assoc, append-nil}
use mathlib.Core.Path.{subst}
use toy_language.AstPool.{
  Memory, AstPreorderIterator, first_child_of, pop_depth, can_descend, has_next_sibling,
  direct_children_of, preorder_ancestors_of, next_preorder, preorder,
}
use toy_language.AstPool.Layout.{
  Forest, nil, grow, is_grown, extent, count, height, IsNode, StandsAt, place_of, visits,
}

-- An iterator at a forest.
abbrev at : ℕ → ℕ → List ℕ → AstPreorderIterator
at place depth prev_depths = record { curr = some place; depth = depth; prev_depths = prev_depths }

-- From an iterator, with this fuel, the loop sees these nodes.
abbrev Sees : Memory → ℕ → AstPreorderIterator → List (ℕ × ℕ) → Type 0
Sees memory fuel iterator nodes = preorder fuel memory iterator ≡ some nodes

see :
    (memory : Memory) (fuel after place depth : ℕ) (prev_depths : List ℕ)
    (next : AstPreorderIterator) (nodes : List (ℕ × ℕ))
    → fuel ≡ suc after
    → next_preorder memory place depth prev_depths ≡ some next
    → Sees memory after next nodes
    → Sees memory fuel (at place depth prev_depths) ((place, depth) ∷ nodes)
unfolding preorder
see memory fuel after place depth prev_depths next nodes e f h = rw (e, f, h) refl

-- Where the iterator at a node goes next.
abbrev successor : ℕ → ℕ → ℕ → List ℕ → Forest → Forest → AstPreorderIterator
successor child sibling depth prev_depths nil nil = pop_depth sibling depth prev_depths
successor child sibling depth prev_depths nil (grow o b s) = at sibling depth prev_depths
successor child sibling depth prev_depths (grow o b s) nil = at child (depth + 1) prev_depths
successor child sibling depth prev_depths (grow o b s) (grow p c t) =
    at child (depth + 1) (depth ∷ prev_depths)

room-can_descend :
    (pushes : Bool) (depth : ℕ) (prev_depths : List ℕ)
    → length prev_depths ≤ depth
    → depth + 2 ≤ 128
    → can_descend pushes depth prev_depths ≡ true
room-can_descend true depth prev_depths h k =
    rw (lt→ltb (length prev_depths) 128 (omega arith), lt→ltb (depth + 1) 128 (omega arith)) refl
room-can_descend false depth prev_depths h k = rw (lt→ltb (depth + 1) 128 (omega arith)) refl

next_preorder-successor :
    (memory : Memory) (place own depth : ℕ) (prev_depths : List ℕ) (below beside : Forest)
    → IsNode memory place own below beside
    → length prev_depths ≤ depth
    → depth + height (grow own below beside) ≤ 128
    → next_preorder memory place depth prev_depths
      ≡ some (successor (place + own) (place + (own + extent below)) depth prev_depths below beside)
unfolding next_preorder first_child_of
next_preorder-successor memory place own depth prev_depths nil nil n h k =
    rw (n.children, n.sibling, n.own_qwords)
      (ap (λ p. some (pop_depth p depth prev_depths)) (omega arith))
next_preorder-successor memory place own depth prev_depths nil (grow o b s) n h k =
    rw (n.children, n.sibling, n.own_qwords) (ap (λ p. some (at p depth prev_depths)) (omega arith))
next_preorder-successor memory place own depth prev_depths (grow o b s) nil n h k =
    rw
      (
        n.children,
        room-can_descend (has_next_sibling (memory place)) depth prev_depths h (omega arith),
        n.sibling,
        n.own_qwords,
      )
      refl
next_preorder-successor memory place own depth prev_depths (grow o b s) (grow p c t) n h k =
    rw
      (
        n.children,
        room-can_descend (has_next_sibling (memory place)) depth prev_depths h (omega arith),
        n.sibling,
        n.own_qwords,
      )
      refl

-- A loop over the iterator at a forest sees its nodes, and then what it sees from where the forest
-- ends.
preorder-visits :
    (memory : Memory) (forest : Forest) (place depth rest : ℕ) (prev_depths : List ℕ)
    (nodes : List (ℕ × ℕ))
    → is_grown forest ≡ true
    → StandsAt memory place forest
    → length prev_depths ≤ depth
    → depth + height forest ≤ 128
    → ((after last : ℕ)
        → after ≡ place + extent forest
        → Sees memory rest (pop_depth after last prev_depths) nodes)
    → Sees memory
        (count forest + rest)
        (at place depth prev_depths)
        (visits place depth forest ++ nodes)
preorder-visits memory nil place depth rest prev_depths nodes g s y z h = cc
preorder-visits memory (grow own nil nil) place depth rest prev_depths nodes g (n, b, s) y z h =
    see memory _ rest place depth prev_depths _ nodes (omega arith)
      (next_preorder-successor memory place own depth prev_depths nil nil n y z)
      (h (place + (own + 0)) depth (omega arith))
preorder-visits memory (grow own nil (grow q c t)) place depth rest prev_depths nodes g (n, b, s) y
      z h =
    let after = place + (own + 0) in
    see memory _ (count (grow q c t) + rest) place depth prev_depths _
      (visits after depth (grow q c t) ++ nodes) (omega arith)
      (next_preorder-successor memory place own depth prev_depths nil (grow q c t) n y z)
      (preorder-visits memory (grow q c t) after depth rest prev_depths nodes refl s y (omega arith)
        (λ p last f. h p last (omega arith)))
preorder-visits memory (grow own (grow q c t) nil) place depth rest prev_depths nodes g (n, b, s) y
      z h =
    see memory _ (count (grow q c t) + rest) place depth prev_depths _
      ((visits (place + own) (depth + 1) (grow q c t) ++ []) ++ nodes) (omega arith)
      (next_preorder-successor memory place own depth prev_depths (grow q c t) nil n y z)
      (subst (Sees memory (count (grow q c t) + rest) (at (place + own) (depth + 1) prev_depths))
        (sym (append_assoc (visits (place + own) (depth + 1) (grow q c t)) [] nodes))
        (preorder-visits memory (grow q c t) (place + own) (depth + 1) rest prev_depths nodes refl b
          (omega arith) (omega arith) (λ p last f. h p last (omega arith))))
preorder-visits memory (grow own (grow q c t) (grow o d u)) place depth rest prev_depths nodes g
      (n, b, s) y z h =
    let after = place + (own + extent (grow q c t)) in
    let later = visits after depth (grow o d u) in
    let more = count (grow o d u) + rest in
    see memory _ (count (grow q c t) + more) place depth prev_depths _
      ((visits (place + own) (depth + 1) (grow q c t) ++ later) ++ nodes) (omega arith)
      (next_preorder-successor memory place own depth prev_depths (grow q c t) (grow o d u) n y z)
      (subst
        (Sees memory (count (grow q c t) + more)
          (at (place + own) (depth + 1) (depth ∷ prev_depths)))
        (sym (append_assoc (visits (place + own) (depth + 1) (grow q c t)) later nodes))
        (preorder-visits memory (grow q c t) (place + own) (depth + 1) more (depth ∷ prev_depths)
          (later ++ nodes) refl b (omega arith) (omega arith)
          (λ p last f.
            subst (λ x. Sees memory more (at x depth prev_depths) (later ++ nodes))
              (let g : after ≡ p = omega arith in g)
              (preorder-visits memory (grow o d u) after depth rest prev_depths nodes refl s y
                (omega arith) (λ x last g. h x last (omega arith))))))

at_end : (memory : Memory) (fuel after last : ℕ) → Sees memory fuel (pop_depth after last []) []
unfolding preorder
at_end memory zero after last = refl
at_end memory (suc fuel) after last = refl

all_visits :
    (memory : Memory) (forest : Forest) (place fuel : ℕ)
    → StandsAt memory place forest
    → height forest ≤ 128
    → count forest ≤ fuel
    → Sees memory fuel
        (record { curr = place_of place forest; depth = 0; prev_depths = [] })
        (visits place 0 forest)
all_visits memory nil place fuel s z k = at_end memory fuel place 0
all_visits memory (grow own below beside) place fuel s z k =
    let rest = fuel - count (grow own below beside) in
    let enough : count (grow own below beside) + rest ≡ fuel = omega arith in
    subst (λ n. Sees memory n (at place 0 []) (visits place 0 (grow own below beside))) enough
      (subst (Sees memory (count (grow own below beside) + rest) (at place 0 []))
        (append-nil (visits place 0 (grow own below beside)))
        (preorder-visits memory (grow own below beside) place 0 rest [] [] refl s (omega arith)
          (omega arith) (λ after last e. at_end memory rest after last)))

preorder_ancestors_of-place :
    (memory : Memory) (place own : ℕ) (below beside : Forest)
    → IsNode memory place own below beside
    → preorder_ancestors_of memory place
      ≡ record { curr = place_of (place + own) below; depth = 0; prev_depths = [] }
unfolding preorder_ancestors_of direct_children_of first_child_of
preorder_ancestors_of-place memory place own nil beside n = rw n.children refl
preorder_ancestors_of-place memory place own (grow o b s) beside n =
    rw (n.children, n.own_qwords) refl

-- For a node whose subtree stands in memory, with at most 128 levels below it, iterating over what is
-- below it in preorder, for at least as many rounds as there are nodes, ends, and gives every node below it, each before its own
-- children, with its depth.
pub preorder_ancestors_of-visits :
    (memory : Memory) (place own fuel : ℕ) (below beside : Forest)
    → StandsAt memory place (grow own below beside)
    → height below ≤ 128
    → count below ≤ fuel
    → preorder fuel memory (preorder_ancestors_of memory place)
      ≡ some (visits (place + own) 0 below)
preorder_ancestors_of-visits memory place own fuel below beside (n, b, s) z k =
    rw (preorder_ancestors_of-place memory place own below beside n)
      (all_visits memory below (place + own) fuel b z k)
