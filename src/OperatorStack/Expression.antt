-- ===== src/OperatorStack/Expression.antt =====
-- Expressions as they are written, for the operator stack of core/parse.cpp.
use toy_language.Base.{
  length, ℕ, suc, ◌-◌, ◌^◌, ◌≤◌, ◌<◌, ◌≡◌, Bool, true, false, List, [], ◌∷◌, ◌++◌,
}
use toy_language.Templating.{AstTag}
use toy_language.AstPool.{AstBuilder, push_node}
use toy_language.OperatorStack.{OperatorDescWithSource, lparen, is_invalid}
use toy_language.OperatorStack.Items.{Item, operand, operator, opening, closing}

-- An expression as it is written: an operand of one node, a prefix operator, a postfix operator on an
-- operand or on parentheses, a binary operator, or parentheses.
pub data Expression : Type 0 where
  leaf : ℕ → ℕ → AstTag → ℕ → Expression
  prefix postfix : OperatorDescWithSource → Expression → Expression
  infix_of : OperatorDescWithSource → Expression → Expression → Expression
  parens : ℕ → Expression → Expression

abbrev pub items : Expression → List Item
items (leaf source_id flags tag qwords) = operand source_id flags tag qwords ∷ []
items (prefix op x) = operator op ∷ items x
items (postfix op x) = items x ++ (operator op ∷ [])
items (infix_of op x y) = items x ++ (operator op ∷ items y)
items (parens source_id x) = opening source_id ∷ items x ++ (closing ∷ [])

abbrev pub node_for : OperatorDescWithSource → ℕ × AstBuilder → ℕ → ℕ × AstBuilder
node_for op (token, builder) first =
    push_node builder first op.source_id op.operator_desc.node_flags op.operator_desc.node_type 0

-- The nodes of an expression in postorder, on what the builder has: first those of its operands, then
-- its own, whose first child is the first operand.
unfoldable pub construct : Expression → AstBuilder → ℕ × AstBuilder
unfolding push_node
construct (leaf source_id flags tag qwords) builder =
    push_node builder (2 ^ 32 - 1) source_id flags tag qwords
construct (prefix op x) builder = let r = construct x builder in node_for op r r.0
construct (postfix op x) builder = let r = construct x builder in node_for op r r.0
construct (infix_of op x y) builder =
    let r = construct x builder in node_for op (construct y r.1) r.0
construct (parens source_id x) builder = construct x builder

-- The operators of an expression that are still on the stack where it ends, the last one first.
abbrev pub pending : Expression → List OperatorDescWithSource
pending (leaf source_id flags tag qwords) = []
pending (prefix op x) = pending x ++ (op ∷ [])
pending (postfix op x) = op ∷ []
pending (infix_of op x y) = pending y ++ (op ∷ [])
pending (parens source_id x) = []

abbrev pub paren : ℕ → OperatorDescWithSource
paren source_id = record { operator_desc = lparen; source_id = source_id }

-- The operator binds tighter than one of this precedence behind it, or as tight, if that is one for
-- which `pop_equal` gives the tie to the first.
abbrev pub Tighter : ℕ → Bool → OperatorDescWithSource → Type 0
Tighter precedence true top = top.operator_desc.precedence ≤ precedence
Tighter precedence false top = top.operator_desc.precedence < precedence

abbrev pub Looser : ℕ → Bool → OperatorDescWithSource → Type 0
Looser precedence true top = precedence < top.operator_desc.precedence
Looser precedence false top = precedence ≤ top.operator_desc.precedence

-- All the operators are popped at a precedence.
abbrev pub ArePopped : ℕ → Bool → List OperatorDescWithSource → Type 0
ArePopped precedence pop_equal [] = Unit {0}
ArePopped precedence pop_equal (top ∷ operators) =
    Tighter precedence pop_equal top × ArePopped precedence pop_equal operators

-- The next operator is not.
abbrev pub IsKept : ℕ → Bool → List OperatorDescWithSource → Type 0
IsKept precedence pop_equal [] = Unit {0}
IsKept precedence pop_equal (top ∷ operators) = Looser precedence pop_equal top

abbrev pub PopsAll : OperatorDescWithSource → List OperatorDescWithSource → Type 0
PopsAll op = ArePopped op.operator_desc.precedence op.operator_desc.is_right_to_left

-- The operator is not a parenthesis, has this many operands, finds room on the stack, and stays above
-- the operators that are there.
pub record CanPush (op : OperatorDescWithSource) (is_binary : Bool)
    (outer : List OperatorDescWithSource) : Type 0 where
  pub proper : is_invalid op.operator_desc.node_type ≡ false
  pub arity : op.operator_desc.is_binary ≡ is_binary
  pub room : length outer < 64
  pub above : IsKept op.operator_desc.precedence op.operator_desc.is_right_to_left outer

-- The expression means what it says by the precedences, within the operators `outer` and after
-- `operands` operands, and does not need more room than there is.
abbrev pub Fits : List OperatorDescWithSource → ℕ → Expression → Type 0
Fits outer operands (leaf source_id flags tag qwords) = operands < 127
Fits outer operands (prefix op x) = CanPush op false outer × Fits (op ∷ outer) operands x
Fits outer operands (postfix op x) =
    CanPush op false outer × PopsAll op (pending x) × Fits outer operands x
Fits outer operands (infix_of op x y) =
    CanPush op true outer
    × PopsAll op (pending x)
    × Fits outer operands x
    × Fits (op ∷ outer) (suc operands) y
Fits outer operands (parens source_id x) =
    (length outer < 64) × ArePopped 10 false (pending x) × Fits (paren source_id ∷ outer) operands x
