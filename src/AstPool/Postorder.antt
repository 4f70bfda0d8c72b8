-- ===== src/AstPool/Postorder.antt =====
-- `AstPostorderIterator` of core/ast_pool.cpp, and the nodes that it finds. The stack `offsets` is a
-- list with its top first, as long as the depth is above -1; its places are below 2^32.
use toy_language.Base.{
  ltb, lt→ltb, true, if◌then◌else◌, length, ℕ, zero, suc, ◌+◌, ◌-◌, ◌≤◌, ◌≡◌, refl, sym, Option,
  none, some, List, [], ◌∷◌, ◌++◌, arith,
}
use mathlib.Core.List.{append_assoc, append-nil}
use mathlib.Core.Path.{subst}
use mathlib.Core.Option
use toy_language.Base.Maybe.{◌>>=◌}
use toy_language.Scopes.{max_ast_depth}
use toy_language.AstPool.{Memory, has_children, has_next_sibling, first_child_of, next_sibling_of}
use toy_language.AstPool.Layout.{Forest, nil, grow, extent, count, height, StandsAt}

-- The loops that go down to a first leaf, in `rounds` rounds; the offset of `curr` is on the stack.
-- `none` where the rounds run out, or an offset would be written past the `MAX_AST_DEPTH` of the array:
-- there the assertion in `next` fails, and that in `postorder_ancestors_of` one round later.
unfoldable pub descend : ℕ → Memory → ℕ → ℕ → List ℕ → Option (List ℕ)
unfolding has_children first_child_of
descend zero memory base curr offsets = if has_children (memory curr) then none else some offsets
descend (suc rounds) memory base curr offsets =
    let child = first_child_of memory curr in
    let deeper = descend rounds memory base child ((child - base) ∷ offsets) in
    if has_children (memory curr)
    then if ltb (length offsets) max_ast_depth then deeper else none
    else some offsets

unfoldable pub postorder_ancestors_of : ℕ → Memory → ℕ → Option (List ℕ)
unfolding descend
postorder_ancestors_of rounds memory node = descend rounds memory node node []

-- `next` of an `AstPostorderIterator` with `offset` on top: the stack after it.
unfoldable pub next_postorder : ℕ → Memory → ℕ → ℕ → List ℕ → Option (List ℕ)
unfolding has_next_sibling next_sibling_of descend
next_postorder rounds memory base offset offsets =
    let sibling = next_sibling_of memory (base + offset) in
    let down = descend rounds memory base sibling ((sibling - base) ∷ offsets) in
    if has_next_sibling (memory (base + offset)) then down else some offsets

-- What a loop over the iterator sees, nodes with their depths.
unfoldable pub postorder : ℕ → ℕ → Memory → ℕ → List ℕ → Option (List (ℕ × ℕ))
unfolding next_postorder
postorder fuel rounds memory base [] = some []
postorder zero rounds memory base (offset ∷ offsets) = none
postorder (suc fuel) rounds memory base (offset ∷ offsets) =
    next_postorder rounds memory base offset offsets >>= λ after.
    Option.map (λ rest. (base + offset, length offsets) ∷ rest)
      (postorder fuel rounds memory base after)

-- The places of the nodes of a forest and their depths, each behind what is below it.
abbrev pub postorder_of : ℕ → ℕ → Forest → List (ℕ × ℕ)
postorder_of place depth nil = []
postorder_of place depth (grow own below beside) =
    postorder_of (place + own) (depth + 1) below
    ++ ((place, depth) ∷ postorder_of (place + (own + extent below)) depth beside)

-- The stack at the first leaf of a forest.
abbrev leftmost : ℕ → ℕ → Forest → List ℕ → List ℕ
leftmost base place nil offsets = offsets
leftmost base place (grow own below beside) offsets =
    leftmost base (place + own) below ((place - base) ∷ offsets)

descend-leftmost :
    (memory : Memory) (below : Forest) (rounds base place own : ℕ) (beside : Forest)
    (offsets : List ℕ)
    → StandsAt memory place (grow own below beside)
    → height below ≤ rounds
    → length offsets + height below ≤ 128
    → descend rounds memory base place offsets ≡ some (leftmost base (place + own) below offsets)
unfolding descend first_child_of
descend-leftmost memory nil zero base place own beside offsets (n, b, s) k z = rw n.children refl
descend-leftmost memory nil (suc rounds) base place own beside offsets (n, b, s) k z =
    rw n.children refl
descend-leftmost memory (grow o d t) zero base place own beside offsets (n, b, s) k z =
    absurd (omega arith)
descend-leftmost memory (grow o d t) (suc rounds) base place own beside offsets (n, b, s) k z =
    let room : ltb (length offsets) 128 ≡ true = lt→ltb (length offsets) 128 (omega arith) in
    rw (n.children, n.own_qwords, room)
      (descend-leftmost memory d rounds base (place + own) o t ((place + own - base) ∷ offsets) b
        (omega arith) (omega arith))

next_postorder-leftmost :
    (memory : Memory) (rounds base place own : ℕ) (below beside : Forest) (offsets : List ℕ)
    → StandsAt memory place (grow own below beside)
    → base ≤ place
    → height beside ≤ rounds
    → length offsets + height beside ≤ 128
    → next_postorder rounds memory base (place - base) offsets
      ≡ some (leftmost base (place + (own + extent below)) beside offsets)
unfolding next_postorder next_sibling_of
next_postorder-leftmost memory rounds base place own below nil offsets (n, b, s) k l z =
    let e : base + (place - base) ≡ place = omega arith in rw (e, n.sibling) refl
next_postorder-leftmost memory rounds base place own below (grow o d t) offsets (n, b, s) k l z =
    let e : base + (place - base) ≡ place = omega arith in
    let after = place + (own + extent below) in
    rw (e, n.sibling, n.offset)
      (descend-leftmost memory d rounds base after o t ((after - base) ∷ offsets) s (omega arith)
        (omega arith))

abbrev FindsFrom : ℕ → ℕ → Memory → ℕ → List ℕ → List (ℕ × ℕ) → Type 0
FindsFrom fuel rounds memory base offsets nodes =
    postorder fuel rounds memory base offsets ≡ some nodes

step :
    (fuel after rounds : ℕ) (memory : Memory) (base place : ℕ) (offsets next : List ℕ)
    (nodes : List (ℕ × ℕ))
    → base ≤ place
    → fuel ≡ suc after
    → next_postorder rounds memory base (place - base) offsets ≡ some next
    → FindsFrom after rounds memory base next nodes
    → FindsFrom fuel rounds memory base ((place - base) ∷ offsets) ((place, length offsets) ∷ nodes)
unfolding postorder
step fuel after rounds memory base place offsets next nodes k e f h =
    let g : base + (place - base) ≡ place = omega arith in rw (e, f, h, g) refl

postorder-returns :
    (memory : Memory) (forest : Forest) (place rest rounds base : ℕ) (offsets : List ℕ)
    (nodes : List (ℕ × ℕ))
    → StandsAt memory place forest
    → base ≤ place
    → height forest ≤ rounds
    → length offsets + height forest ≤ 128
    → FindsFrom rest rounds memory base offsets nodes
    → FindsFrom
        (count forest + rest)
        rounds
        memory
        base
        (leftmost base place forest offsets)
        (postorder_of place (length offsets) forest ++ nodes)
postorder-returns memory nil place rest rounds base offsets nodes s k l z h =
    subst (λ n. FindsFrom n rounds memory base offsets nodes)
      (let e : rest ≡ 0 + rest = omega arith in e) h
postorder-returns memory (grow own below beside) place rest rounds base offsets nodes (n, b, s) k l
      z h =
    let after = place + (own + extent below) in
    let more = count beside + rest in
    let later = postorder_of after (length offsets) beside ++ nodes in
    let stack = leftmost base (place + own) below ((place - base) ∷ offsets) in
    let fuel : count below + suc more ≡ suc (count below + count beside) + rest = omega arith in
    let depth : suc (length offsets) ≡ length offsets + 1 = omega arith in
    subst
      (λ m.
        FindsFrom m rounds memory base stack
          (postorder_of place (length offsets) (grow own below beside) ++ nodes))
      fuel
      (subst (FindsFrom (count below + suc more) rounds memory base stack)
        (sym (
          append_assoc (postorder_of (place + own) (length offsets + 1) below)
            ((place, length offsets) ∷ postorder_of after (length offsets) beside) nodes))
        (subst
          (λ m.
            FindsFrom (count below + suc more) rounds memory base stack
              (postorder_of (place + own) m below ++ ((place, length offsets) ∷ later)))
          depth
          (postorder-returns memory below (place + own) (suc more) rounds base
            ((place - base) ∷ offsets) ((place, length offsets) ∷ later) b (omega arith)
            (omega arith) (omega arith)
            (step (suc more) more rounds memory base place offsets
              (leftmost base after beside offsets) later k refl
              (next_postorder-leftmost memory rounds base place own below beside offsets (n, b, s) k
                (omega arith) (omega arith))
              (postorder-returns memory beside after rest rounds base offsets nodes s (omega arith)
                (omega arith) (omega arith) h)))))

no_more : (fuel rounds : ℕ) (memory : Memory) (base : ℕ) → FindsFrom fuel rounds memory base [] []
unfolding postorder
no_more zero rounds memory base = refl
no_more (suc fuel) rounds memory base = refl

-- For a node whose subtree stands in memory, of at most 128 levels and no more than there are rounds to
-- go down, iterating over what is below it in postorder, for at least as many rounds as there are nodes, ends,
-- and gives every node below it, each behind its own children, with its depth.
pub postorder_ancestors_of-postorder_of :
    (memory : Memory) (place own fuel rounds : ℕ) (below beside : Forest)
    → StandsAt memory place (grow own below beside)
    → height below ≤ rounds
    → height below ≤ 128
    → count below ≤ fuel
    → (postorder_ancestors_of rounds memory place >>= postorder fuel rounds memory place)
      ≡ some (postorder_of (place + own) 0 below)
unfolding postorder_ancestors_of
postorder_ancestors_of-postorder_of memory place own fuel rounds below beside (n, b, s) k z l =
    let rest = fuel - count below in
    let enough : count below + rest ≡ fuel = omega arith in
    let start = leftmost place (place + own) below [] in
    rw (descend-leftmost memory below rounds place place own beside [] (n, b, s) k (omega arith)) (
      subst (λ m. FindsFrom m rounds memory place start (postorder_of (place + own) 0 below)) enough
        (subst (FindsFrom (count below + rest) rounds memory place start)
          (append-nil (postorder_of (place + own) 0 below))
          (postorder-returns memory below (place + own) rest rounds place [] [] b (omega arith) k
            (omega arith) (no_more rest rounds memory place))))
