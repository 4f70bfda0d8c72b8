-- ===== src/OperatorStack.antt =====
-- The operators of expressions in core/parse.cpp: their tables, and `OperatorStack` with its
-- operations. A stack is a list with its top first; the position that an error names is left out.
pub mod Tables
pub mod Items
pub mod Expression
pub mod Drains
pub mod Builds
pub mod Parens
pub mod Balance
pub mod Accepted
use toy_language.Base.{
  [], ltb, ◌==◌, if◌then◌else◌, length, drop, ℕ, Bool, true, false, ◌&&◌, ◌||◌, not, List, ◌∷◌,
}
use toy_language.Templating.{AstTag, invalid}
use toy_language.AstPool.{AstBuilder, push_node}

pub record OperatorDesc : Type 0 where
  pub node_type : AstTag
  pub node_flags : ℕ
  pub precedence : ℕ
  pub is_right_to_left : Bool
  pub is_binary : Bool

pub record OperatorDescWithSource : Type 0 where
  pub operator_desc : OperatorDesc
  pub source_id : ℕ

-- The arrays `operators` and `operand_tokens`, as far as they are in use.
pub record OperatorStack : Type 0 where
  pub operators : List OperatorDescWithSource
  pub operand_tokens : List ℕ

abbrev pub unary : AstTag → ℕ → ℕ → OperatorDesc
unary tag flags precedence = record {
  node_type = tag;
  node_flags = flags;
  precedence = precedence;
  is_right_to_left = false;
  is_binary = false;
}

abbrev pub binary : AstTag → ℕ → Bool → OperatorDesc
binary tag precedence is_right_to_left = record {
  node_type = tag;
  node_flags = 0;
  precedence = precedence;
  is_right_to_left = is_right_to_left;
  is_binary = true;
}

-- The entry for an opening parenthesis.
abbrev pub lparen : OperatorDesc
lparen = binary invalid 10 false

-- The errors of `CompileError` that the operations report.
pub data ParseError : Type 0 where
  parse_unary_operator_missing_operand : ParseError
  parse_binary_operator_missing_operand : ParseError
  parse_open_operand_count_too_large : ParseError
  parse_open_operator_count_too_large : ParseError
  parse_operator_operand_count_mismatch : ParseError

-- An operation ends with a result, the builder and the stack, or in `parse_error_fatal`.
pub data Outcome (A : Type 0) : Type 0 where
  built : A → AstBuilder → OperatorStack → Outcome A
  failed : ParseError → Outcome A

abbrev pub bind :
    {A B : Type 0} → Outcome A → (A → AstBuilder → OperatorStack → Outcome B) → Outcome B
bind (built a builder stack) f = f a builder stack
bind (failed e) f = failed e

abbrev pub is_invalid : AstTag → Bool
is_invalid invalid = true
is_invalid tag = false

-- What `pop_operator` makes of the operands, for an operator that is not a parenthesis.
abbrev pub apply_operator :
    AstBuilder
    → Bool
    → OperatorDescWithSource
    → List OperatorDescWithSource
    → List ℕ
    → Outcome (Unit {0})
apply_operator builder true top operators [] = failed parse_binary_operator_missing_operand
apply_operator builder true top operators (second ∷ []) =
    failed parse_binary_operator_missing_operand
apply_operator builder true top operators (second ∷ first ∷ operands) =
    let (token, after) =
      push_node builder first top.source_id top.operator_desc.node_flags top.operator_desc.node_type
        0 in
    built tt after (record { operators = operators; operand_tokens = token ∷ operands })
apply_operator builder false top operators [] = failed parse_unary_operator_missing_operand
apply_operator builder false top operators (first ∷ operands) =
    let (token, after) =
      push_node builder first top.source_id top.operator_desc.node_flags top.operator_desc.node_type
        0 in
    built tt after (record { operators = operators; operand_tokens = token ∷ operands })

-- With `top` on the stack above `operators`.
unfoldable pub pop_operator :
    AstBuilder → OperatorDescWithSource → List OperatorDescWithSource → List ℕ → Outcome (Unit {0})
unfolding push_node
pop_operator builder top operators operands =
    if is_invalid top.operator_desc.node_type
    then built tt builder (record { operators = operators; operand_tokens = operands })
    else apply_operator builder top.operator_desc.is_binary top operators operands

-- The test that ends the loop of `pop_to_precedence`.
abbrev pub stops : ℕ → Bool → OperatorDescWithSource → Bool
stops precedence pop_equal top =
    ltb precedence top.operator_desc.precedence
    || (top.operator_desc.precedence == precedence && not pop_equal)

-- The loop, over the operators that are left.
unfoldable pub pop_to_precedence :
    ℕ → Bool → AstBuilder → List OperatorDescWithSource → List ℕ → Outcome Bool
unfolding pop_operator
pop_to_precedence precedence pop_equal builder [] operands =
    built false builder (record { operators = []; operand_tokens = operands })
pop_to_precedence precedence pop_equal builder (top ∷ operators) operands =
    let rest = bind (pop_operator builder top operators operands) (λ _ after stack.
      pop_to_precedence precedence pop_equal after operators stack.operand_tokens) in
    if stops precedence pop_equal top
    then built true builder (record { operators = top ∷ operators; operand_tokens = operands })
    else rest

unfoldable pub push_operand : AstBuilder → OperatorStack → ℕ → Outcome (Unit {0})
push_operand builder stack operand_token =
    if length stack.operand_tokens == 127
    then failed parse_open_operand_count_too_large
    else built tt builder (record stack { operand_tokens = operand_token ∷ stack.operand_tokens })

abbrev pub add_operator : OperatorDescWithSource → AstBuilder → OperatorStack → Outcome (Unit {0})
add_operator op builder stack =
    if length stack.operators == 64
    then failed parse_open_operator_count_too_large
    else built tt builder (record stack { operators = op ∷ stack.operators })

unfoldable pub push_operator :
    AstBuilder → OperatorStack → OperatorDescWithSource → Outcome (Unit {0})
unfolding pop_to_precedence
push_operator builder stack op =
    if is_invalid op.operator_desc.node_type
    then add_operator op builder stack
    else bind
        (pop_to_precedence op.operator_desc.precedence op.operator_desc.is_right_to_left builder
          stack.operators stack.operand_tokens)
        (λ _ after popped. add_operator op after popped)

abbrev pub remove_lparen : OperatorStack → OperatorStack
remove_lparen stack = record stack { operators = drop 1 stack.operators }

-- The loop of `pop_remaining`.
unfoldable pub pop_all : AstBuilder → List OperatorDescWithSource → List ℕ → Outcome (Unit {0})
unfolding pop_operator
pop_all builder [] operands =
    built tt builder (record { operators = []; operand_tokens = operands })
pop_all builder (top ∷ operators) operands =
    bind (pop_operator builder top operators operands)
      (λ _ after stack. pop_all after operators stack.operand_tokens)

abbrev pub single : List ℕ → AstBuilder → OperatorStack → Outcome ℕ
single [] builder stack = failed parse_operator_operand_count_mismatch
single (token ∷ []) builder stack = built token builder stack
single (token ∷ other ∷ operands) builder stack = failed parse_operator_operand_count_mismatch

unfoldable pub pop_remaining : AstBuilder → OperatorStack → Outcome ℕ
unfolding pop_all
pop_remaining builder stack =
    bind (pop_all builder stack.operators stack.operand_tokens)
      (λ _ after popped. single popped.operand_tokens after popped)
