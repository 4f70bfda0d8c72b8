-- ===== src/Tests/AstPool.antt =====
-- core/ast_pool.cpp at a concrete tree.
use toy_language.Base.{◌==◌, if◌then◌else◌, ℕ, ◌≡◌, refl, some, [], ◌∷◌, arith}
use toy_language.Base.Maybe.{◌>>=◌}
use toy_language.Templating.{invalid}
use toy_language.AstPool.{
  AstNode, Memory, has_children, has_next_sibling, direct_children_of, direct_children,
  preorder_ancestors_of, preorder, flat_ancestors_of,
}
use toy_language.AstPool.Layout.{Forest, nil, grow, StandsAt}
use toy_language.AstPool.Children.{direct_children_of-roots}
use toy_language.AstPool.Preorder.{preorder_ancestors_of-visits}
use toy_language.AstPool.Flat.{flat_ancestors_of-visits}
use toy_language.AstPool.Postorder.{
  postorder_ancestors_of, postorder, postorder_ancestors_of-postorder_of,
}

abbrev some_node : ℕ → ℕ → ℕ → AstNode
some_node own structure_flags offset = record {
  tag = invalid;
  flags = 0;
  own_qwords = own;
  structure_flags = structure_flags;
  next_sibling_offset = offset;
}

-- A root with two children, of which the first has one.
abbrev tree_at_zero : Memory
tree_at_zero place =
    if place == 0
    then some_node 1 3 5
    else if place == 1
    then some_node 2 1 3
    else if place == 3
    then some_node 1 7 1
    else some_node 1 6 1

abbrev two_trees : Forest
two_trees = grow 2 (grow 1 nil nil) (grow 1 nil nil)

tree_at_zero-StandsAt : StandsAt tree_at_zero 0 (grow 1 two_trees nil)
unfolding has_children has_next_sibling
tree_at_zero-StandsAt = (
  record {
    positive = omega arith;
    own_qwords = refl;
    offset = refl;
    children = refl;
    sibling = refl;
  },
  (
    record {
      positive = omega arith;
      own_qwords = refl;
      offset = refl;
      children = refl;
      sibling = refl;
    },
    (
      record {
        positive = omega arith;
        own_qwords = refl;
        offset = refl;
        children = refl;
        sibling = refl;
      },
      tt,
      tt,
    ),
    (
      record {
        positive = omega arith;
        own_qwords = refl;
        offset = refl;
        children = refl;
        sibling = refl;
      },
      tt,
      tt,
    ),
  ),
  tt,
)

direct_children_of-roots_example :
    direct_children 2 tree_at_zero (direct_children_of tree_at_zero 0) ≡ some (1 ∷ 4 ∷ [])
direct_children_of-roots_example =
    direct_children_of-roots tree_at_zero 0 1 2 two_trees nil tree_at_zero-StandsAt (omega arith)

preorder_ancestors_of-visits_example :
    preorder 3 tree_at_zero (preorder_ancestors_of tree_at_zero 0)
    ≡ some ((1, 0) ∷ (3, 1) ∷ (4, 0) ∷ [])
preorder_ancestors_of-visits_example =
    preorder_ancestors_of-visits tree_at_zero 0 1 3 two_trees nil tree_at_zero-StandsAt
      (omega arith) (omega arith)

flat_ancestors_of-visits_example : flat_ancestors_of 5 tree_at_zero 0 ≡ some (0 ∷ 1 ∷ 3 ∷ 4 ∷ [])
flat_ancestors_of-visits_example =
    flat_ancestors_of-visits tree_at_zero 0 1 5 two_trees nil tree_at_zero-StandsAt (omega arith)

postorder_ancestors_of-postorder_of_example :
    (postorder_ancestors_of 2 tree_at_zero 0 >>= postorder 3 2 tree_at_zero 0)
    ≡ some ((3, 1) ∷ (1, 0) ∷ (4, 0) ∷ [])
postorder_ancestors_of-postorder_of_example =
    postorder_ancestors_of-postorder_of tree_at_zero 0 1 3 2 two_trees nil tree_at_zero-StandsAt
      (omega arith) (omega arith) (omega arith)
