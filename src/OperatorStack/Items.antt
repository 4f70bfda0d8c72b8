-- ===== src/OperatorStack/Items.antt =====
-- What `parse_expr` of core/parse.cpp does with its operator stack.
use toy_language.Base.{if◌then◌else◌, ℕ, ◌-◌, ◌^◌, Bool, true, false, List, [], ◌∷◌}
use toy_language.Templating.{AstTag}
use toy_language.AstPool.{AstBuilder, push_node}
use toy_language.OperatorStack.{
  OperatorDescWithSource, OperatorStack, Outcome, built, bind, lparen, remove_lparen, push_operand,
  push_operator, pop_to_precedence, pop_remaining,
}

-- What `parse_expr` makes of the tokens of an expression in operators, parentheses and operands that
-- are one node each.
pub data Item : Type 0 where
  operand : ℕ → ℕ → AstTag → ℕ → Item
  operator : OperatorDescWithSource → Item
  opening : ℕ → Item
  closing : Item

abbrev pub close_paren : Bool → AstBuilder → OperatorStack → Outcome Bool
close_paren true builder stack = built true builder (remove_lparen stack)
close_paren false builder stack = built false builder stack

-- The result is whether `parse_expr` goes on: it does not at a parenthesis that is not its own.
unfoldable pub take_item : Item → AstBuilder → OperatorStack → Outcome Bool
unfolding push_node push_operand push_operator pop_to_precedence
take_item (operand source_id flags tag attachment_qwords) builder stack =
    let (token, after) = push_node builder (2 ^ 32 - 1) source_id flags tag attachment_qwords in
    bind (push_operand after stack token) (λ _ b s. built true b s)
take_item (operator op) builder stack =
    bind (push_operator builder stack op) (λ _ b s. built true b s)
take_item (opening source_id) builder stack =
    bind (push_operator builder stack (record { operator_desc = lparen; source_id = source_id }))
      (λ _ b s. built true b s)
take_item closing builder stack =
    bind (pop_to_precedence 10 false builder stack.operators stack.operand_tokens) close_paren

unfoldable pub take_items : List Item → AstBuilder → OperatorStack → Outcome Bool
unfolding take_item
take_items [] builder stack = built true builder stack
take_items (item ∷ items) builder stack =
    bind (take_item item builder stack)
      (λ more b s. if more then take_items items b s else built false b s)

-- The empty stack at the start, all items, and `pop_remaining`.
unfoldable pub parse_items : List Item → AstBuilder → Outcome ℕ
unfolding take_items pop_remaining
parse_items items builder =
    bind (take_items items builder (record { operators = []; operand_tokens = [] }))
      (λ _ b s. pop_remaining b s)
