-- ===== src/AstPool.antt =====
-- core/ast_pool.cpp: the nodes of syntax trees in memory, the builder's `push_node`, and the
-- iterators. A node pointer is an index in units of 8 bytes; the contents of attachments are left
-- out.
pub mod Layout
pub mod Children
pub mod Preorder
pub mod Flat
pub mod Postorder
use mathlib.Core.Option
use toy_language.Base.{
  [], ltb, true, ◌&&◌, ltb, leb, ◌==◌, if◌then◌else◌, length, replicate, ℕ, zero, suc, ◌+◌, ◌-◌,
  ◌^◌, bit_and, Bool, ◌&&◌, not, Option, none, some, List, ◌∷◌, ◌++◌, map,
}
use toy_language.Base.Maybe.{◌>>=◌}
use toy_language.Scopes.{max_ast_depth}
use toy_language.Templating.{AstTag, invalid}

pub record AstNode : Type 0 where
  pub tag : AstTag
  pub flags : ℕ
  pub own_qwords : ℕ
  pub structure_flags : ℕ
  pub next_sibling_offset : ℕ

abbrev pub structure_first_sibling : ℕ
structure_first_sibling = 1

abbrev pub structure_last_sibling : ℕ
structure_last_sibling = 2

abbrev pub structure_no_children : ℕ
structure_no_children = 4

unfoldable pub has_children : AstNode → Bool
has_children node = bit_and node.structure_flags structure_no_children == 0

unfoldable pub has_next_sibling : AstNode → Bool
has_next_sibling node = bit_and node.structure_flags structure_last_sibling == 0

unfoldable pub has_flag : AstNode → ℕ → Bool
has_flag node flag = not (bit_and node.flags flag == 0)

-- The nodes that stand in memory, by their index.
abbrev pub Memory : Type 0
Memory = ℕ → AstNode

unfoldable pub is_descendant_of : Memory → ℕ → ℕ → Bool
is_descendant_of memory parent child =
    leb parent child && ltb child (parent + (memory parent).next_sibling_offset)

unfoldable pub next_sibling_of : Memory → ℕ → ℕ
next_sibling_of memory node = node + (memory node).next_sibling_offset

unfoldable pub first_child_of : Memory → ℕ → ℕ
first_child_of memory node = node + (memory node).own_qwords

-- `nullptr` is `none`.
unfoldable pub direct_children_of : Memory → ℕ → Option ℕ
unfolding has_children first_child_of
direct_children_of memory node =
    if has_children (memory node) then some (first_child_of memory node) else none

-- `next` of an `AstDirectChildIterator` at a node: the iterator after it.
unfoldable pub next_direct_child : Memory → ℕ → Option ℕ
unfolding has_next_sibling next_sibling_of
next_direct_child memory curr =
    if has_next_sibling (memory curr) then some (next_sibling_of memory curr) else none

-- What a loop over the iterator sees, with fuel; `none` means that the fuel ran out.
unfoldable pub direct_children : ℕ → Memory → Option ℕ → Option (List ℕ)
unfolding next_direct_child
direct_children fuel memory none = some []
direct_children zero memory (some curr) = none
direct_children (suc fuel) memory (some curr) =
    Option.map (λ rest. curr ∷ rest) (direct_children fuel memory (next_direct_child memory curr))

-- `prev_depths` has its top first.
pub record AstPreorderIterator : Type 0 where
  pub curr : Option ℕ
  pub depth : ℕ
  pub prev_depths : List ℕ

unfoldable pub preorder_ancestors_of : Memory → ℕ → AstPreorderIterator
unfolding direct_children_of
preorder_ancestors_of memory node = record {
  curr = direct_children_of memory node;
  depth = 0;
  prev_depths = [];
}

-- At a leaf that is a last sibling.
abbrev pub pop_depth : ℕ → ℕ → List ℕ → AstPreorderIterator
pop_depth after depth [] = record { curr = none; depth = depth; prev_depths = [] }
pop_depth after depth (prev ∷ prev_depths) = record {
  curr = some after;
  depth = prev;
  prev_depths = prev_depths;
}

-- The assertions on the way to a first child: the depth, and the top of `prev_depths` where it is
-- pushed, stay below `MAX_AST_DEPTH`.
abbrev pub can_descend : Bool → ℕ → List ℕ → Bool
can_descend pushes depth prev_depths =
    (if pushes then ltb (length prev_depths) max_ast_depth else true)
    && ltb (depth + 1) max_ast_depth

-- `next` of an `AstPreorderIterator` at `curr`: the iterator after it, or `none` where an assertion
-- fails.
unfoldable pub next_preorder : Memory → ℕ → ℕ → List ℕ → Option AstPreorderIterator
unfolding has_children has_next_sibling first_child_of
next_preorder memory curr depth prev_depths =
    let after = first_child_of memory curr in
    if has_children (memory curr)
    then if can_descend (has_next_sibling (memory curr)) depth prev_depths
      then some (record {
        curr = some after;
        depth = depth + 1;
        prev_depths = if has_next_sibling (memory curr) then depth ∷ prev_depths else prev_depths;
      })
      else none
    else if has_next_sibling (memory curr)
    then some (record { curr = some after; depth = depth; prev_depths = prev_depths })
    else some (pop_depth after depth prev_depths)

-- What a loop over the iterator sees, nodes with their depths; `none` where the fuel runs out or an
-- assertion fails.
unfoldable pub preorder : ℕ → Memory → AstPreorderIterator → Option (List (ℕ × ℕ))
unfolding next_preorder
preorder zero memory iterator = elim iterator.curr [ some curr ↦ none | none ↦ some [] ]
preorder (suc fuel) memory iterator = elim iterator.curr [
  | none ↦ some []
  | some curr ↦ next_preorder memory curr iterator.depth iterator.prev_depths >>= λ after.
      Option.map (λ rest. (curr, iterator.depth) ∷ rest) (preorder fuel memory after)
]

-- An `AstFlatIterator` from `curr` to `end`.
unfoldable pub flat : ℕ → Memory → ℕ → ℕ → Option (List ℕ)
flat zero memory curr end = none
flat (suc fuel) memory curr end =
    let rest = flat fuel memory (curr + (memory curr).own_qwords) end in
    if curr == end then some [] else Option.map (λ nodes. curr ∷ nodes) rest

unfoldable pub flat_ancestors_of : ℕ → Memory → ℕ → Option (List ℕ)
unfolding flat
flat_ancestors_of fuel memory node =
    flat fuel memory node (node + (memory node).next_sibling_offset)

-- The builder: `node_builder` and `source_builder`.
pub record AstBuilder : Type 0 where
  pub nodes : List AstNode
  pub sources : List ℕ

-- `AstBuilderToken::NO_CHILDREN`.
abbrev pub no_children : ℕ
no_children = 2 ^ 32 - 1

-- An attachment's place in `nodes`, and the rest of its place in `sources`.
abbrev pub attachment_cell : AstNode
attachment_cell = record {
  tag = invalid;
  flags = 0;
  own_qwords = 0;
  structure_flags = 0;
  next_sibling_offset = 0;
}

-- The two forms of `push_node`; the first is the one with no attachment. The token is the index.
unfoldable pub push_node : AstBuilder → ℕ → ℕ → ℕ → AstTag → ℕ → ℕ × AstBuilder
push_node builder first_child source_id flags tag attachment_qwords =
    let node : AstNode = record {
      tag = tag;
      flags = flags;
      own_qwords = 1 + attachment_qwords;
      structure_flags = if first_child == no_children then structure_no_children else 0;
      next_sibling_offset = first_child;
    } in
    (
      length builder.nodes,
      record {
        nodes = builder.nodes ++ (node ∷ replicate attachment_qwords attachment_cell);
        sources = builder.sources ++ (source_id ∷ replicate attachment_qwords 0);
      },
    )
