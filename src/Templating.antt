-- ===== src/Templating.antt =====
-- Templated parameters, of core/lexical_analyser.cpp: `check_expression_is_templated` and
-- `check_parameter_is_templated`, over syntax trees. Of a node the tag, the identifier of an
-- `identifier` and the children are kept.
pub mod Balance
use toy_language.Base.{if◌then◌else◌, ℕ, zero, suc, Bool, true, false, ◌&&◌, Option, none, some}
use mathlib.Core.Option
use toy_language.Base.Maybe.{◌>>=◌}
use toy_language.ScopeMap.{
  ScopeMap, local_kind, signature_kind, scope_map_alloc, scope_map_get, ScopeEntry,
}
use toy_language.Scopes.{LexicalAnalyser, scope_of, push_scope, pop_scope}

pub data AstTag : Type 0 where
  invalid builtin file composite_initializer array_initializer wildcard where_tag : AstTag
  expects ensures definition parameter block if_tag for_tag for_each switch case : AstTag
  func signature trait impl self_tag catch unreachable undefined identifier : AstTag
  lit_integer lit_float lit_char lit_string op_slice_of return_tag leave yield_tag : AstTag
  parameter_list trait_parameter_list call uop_type_tail_array uop_type_slice : AstTag
  uop_type_multi_ptr uop_type_opt_multi_ptr uop_eval uop_try uop_defer : AstTag
  uop_distinct uop_addr uop_deref uop_bit_not uop_log_not uop_type_opt_ptr : AstTag
  uop_type_var_args implied_member uop_type_ptr uop_negate uop_pos op_add op_sub : AstTag
  op_mul op_div op_add_tc op_sub_tc op_mul_tc op_mod op_bit_and op_bit_or : AstTag
  op_bit_xor op_shift_l op_shift_r op_log_and op_log_or member op_cmp_lt op_cmp_gt : AstTag
  op_cmp_le op_cmp_ge op_cmp_ne op_cmp_eq op_set op_set_add op_set_sub op_set_mul : AstTag
  op_set_div op_set_add_tc op_set_sub_tc op_set_mul_tc op_set_mod op_set_bit_and : AstTag
  op_set_bit_or op_set_bit_xor op_set_shift_l op_set_shift_r op_type_array : AstTag
  op_array_index : AstTag

mutual
  pub data AstNode : Type 0 where
    node : AstTag → ℕ → AstNodes → AstNode

  pub data AstNodes : Type 0 where
    nil : AstNodes
    cons : AstNode → AstNodes → AstNodes

abbrev pub is_signature_scope : ScopeMap → Bool
is_signature_scope scope = elim scope.kind [ signature_kind ↦ true | _ ↦ false ]

-- The branches of `check_expression_is_templated`; of the last, with and without a scope.
pub data NodeBranch : Type 0 where
  name_branch func_branch scope_branch other_branch : NodeBranch

abbrev pub branch_of : AstTag → NodeBranch
branch_of identifier = name_branch
branch_of func = func_branch
branch_of block = scope_branch
branch_of signature = scope_branch
branch_of tag = other_branch

-- What is known at one scope, from what it holds of the name and from whether it is the
-- signature's; `rest` is for the scopes around it.
abbrev pub at_scope : Option ScopeEntry → Bool → Option Bool → Option Bool
at_scope (some entry) in_signature rest = some in_signature
at_scope none in_signature rest = if in_signature then some false else rest

-- The loop over the scopes from the innermost to the outermost. `none` stands for
-- `ASSERT_UNREACHABLE`.
unfoldable pub identifier_is_templated : LexicalAnalyser → ℕ → ℕ → Option Bool
identifier_is_templated lex name zero = none
identifier_is_templated lex name (suc i) =
    at_scope (scope_map_get (scope_of lex i) name) (is_signature_scope (scope_of lex i))
      (identifier_is_templated lex name i)

abbrev pub pop_if : Bool → LexicalAnalyser → LexicalAnalyser
pop_if needs_pop lex = if needs_pop then pop_scope lex else lex

-- The branches, with what the calls for the children give.
abbrev pub by_branch :
    NodeBranch
    → ℕ
    → Bool
    → LexicalAnalyser
    → (LexicalAnalyser → Option (Bool × LexicalAnalyser))
    → Option (Bool × LexicalAnalyser)
    → Option (Bool × LexicalAnalyser)
by_branch name_branch name do_pop lex children func_result =
    Option.map (λ is_templated. (is_templated, lex)) (identifier_is_templated lex name lex.depth)
by_branch func_branch name do_pop lex children func_result = func_result
by_branch scope_branch name do_pop lex children func_result = do
  lex_pushed ← push_scope lex (scope_map_alloc local_kind)
  (is_templated, lex_children) ← children lex_pushed
  some (is_templated, pop_if do_pop lex_children)
by_branch other_branch name do_pop lex children func_result = children lex

-- `none` also stands for a function without its two children, which the parser does not make, and for
-- more than 128 scopes.
unfoldable mutual
  unfolding identifier_is_templated push_scope pop_scope

  pub check_expression_is_templated :
      AstNode → Bool → LexicalAnalyser → Option (Bool × LexicalAnalyser)
  check_expression_is_templated (node tag name children) do_pop lex =
      by_branch (branch_of tag) name do_pop lex (check_children_are_templated children)
        (check_func_is_templated children lex)

  -- The branch for a function, on its signature and its body.
  pub check_func_is_templated : AstNodes → LexicalAnalyser → Option (Bool × LexicalAnalyser)
  check_func_is_templated nil lex = none
  check_func_is_templated (cons first nil) lex = none
  check_func_is_templated (cons first (cons body rest)) lex = do
    (signature_templated, lex_signature) ← check_expression_is_templated first false lex
    if signature_templated then some (true, pop_scope lex_signature) else (do
      (is_templated, lex_body) ← check_expression_is_templated body true lex_signature
      some (is_templated, pop_scope lex_body))

  -- The loop over the children, up to the first templated one.
  pub check_children_are_templated : AstNodes → LexicalAnalyser → Option (Bool × LexicalAnalyser)
  check_children_are_templated nil lex = some (false, lex)
  check_children_are_templated (cons child rest) lex = do
    (is_templated, lex_child) ← check_expression_is_templated child true lex
    if is_templated then some (true, lex_child) else check_children_are_templated rest lex_child

unfoldable pub check_parameter_is_templated :
    AstNodes → LexicalAnalyser → Option (Bool × LexicalAnalyser)
unfolding check_expression_is_templated check_func_is_templated check_children_are_templated
check_parameter_is_templated nil lex = none
check_parameter_is_templated (cons first_child nil) lex =
    check_expression_is_templated first_child true lex
check_parameter_is_templated (cons first_child (cons second_child rest)) lex = do
  (is_templated, lex_first) ← check_expression_is_templated first_child true lex
  (if is_templated
      then some (true, lex_first)
      else check_expression_is_templated second_child true lex_first)
