-- ===== src/OperatorStack/Accepted.antt =====
-- Operands against binary operators in the expressions that core/parse.cpp accepts.
use toy_language.Base.{
  ◌==◌, if◌then◌else◌, Bool-cases, length, ℕ, suc, ◌+◌, ◌≡◌, refl, sym, inl, inr, true, false, List,
  [], ◌∷◌, arith,
}
use mathlib.Core.Path.{subst}
use toy_language.AstPool.{AstBuilder, push_node}
use toy_language.OperatorStack.{
  OperatorStack, Outcome, built, failed, bind, push_operand, single, pop_remaining, lparen,
}
use toy_language.OperatorStack.Items.{
  Item, operand, operator, opening, closing, take_item, take_items, parse_items,
}
use toy_language.OperatorStack.Balance.{
  weight, operand_count, binary_count, AreOpen, Ensures, Ensures-bind, Balances, push-Balances,
  all-Balances,
}

go_on :
    (P Q : OperatorStack → Type 0) (items : List Item) (m : Outcome (Unit {0}))
    → Ensures P m
    → ((builder : AstBuilder) (stack : OperatorStack)
        → P stack
        → Ensures Q (take_items items builder stack))
    → Ensures Q (
        bind
          (bind m (λ _ b s. built true b s))
          (λ more b s. if more then take_items items b s else built false b s))
go_on P Q items (built u builder stack) h k = k builder stack h
go_on P Q items (failed e) h k = tt

operand-Balances :
    (operands binaries token : ℕ) (builder : AstBuilder) (stack : OperatorStack)
    → Balances operands binaries stack
    → Ensures (Balances (suc operands) binaries) (push_operand builder stack token)
unfolding push_operand
operand-Balances operands binaries token builder stack h =
    elim (Bool-cases (length stack.operand_tokens == 127)) [
      | inl full ↦ rw full tt
      | inr room ↦ rw room (omega arith)
    ]

shift :
    (items : List Item) (operands binaries operands' binaries' : ℕ) (builder : AstBuilder)
    (stack : OperatorStack)
    → operands + operand_count items ≡ operands'
    → binaries + binary_count items ≡ binaries'
    → Ensures
        (Balances (operands + operand_count items) (binaries + binary_count items))
        (take_items items builder stack)
    → Ensures (Balances operands' binaries') (take_items items builder stack)
shift items operands binaries operands' binaries' builder stack e f h = rw (sym e, sym f) h

items-Balances :
    (items : List Item) (operands binaries : ℕ) (builder : AstBuilder) (stack : OperatorStack)
    → AreOpen items
    → Balances operands binaries stack
    → Ensures
        (Balances (operands + operand_count items) (binaries + binary_count items))
        (take_items items builder stack)
unfolding take_items take_item push_node
items-Balances [] operands binaries builder stack o h = omega arith
items-Balances (operand source_id flags tag qwords ∷ items) operands binaries builder stack o h =
    go_on (Balances (suc operands) binaries) _ items _
      (operand-Balances operands binaries (length builder.nodes) _ stack h)
      (λ b s k.
        shift items (suc operands) binaries _ _ b s (omega arith) (omega arith)
          (items-Balances items (suc operands) binaries b s o k))
items-Balances (operator op ∷ items) operands binaries builder stack o h =
    go_on (Balances operands (binaries + weight op)) _ items _
      (push-Balances operands binaries op builder stack h)
      (λ b s k.
        shift items operands (binaries + weight op) _ _ b s (omega arith) (omega arith)
          (items-Balances items operands (binaries + weight op) b s o k))
items-Balances (opening source_id ∷ items) operands binaries builder stack o h =
    go_on (Balances operands (binaries + 0)) _ items _
      (push-Balances operands binaries (record { operator_desc = lparen; source_id = source_id })
        builder stack h)
      (λ b s k.
        shift items operands (binaries + 0) _ _ b s (omega arith) (omega arith)
          (items-Balances items operands (binaries + 0) b s o k))
items-Balances (closing ∷ items) operands binaries builder stack o h = absurd o

single-Balances :
    (operands binaries : ℕ) (tokens : List ℕ) (builder : AstBuilder) (stack : OperatorStack)
    → length tokens + binaries ≡ operands
    → Ensures (λ s. operands ≡ suc binaries) (single tokens builder stack)
single-Balances operands binaries [] builder stack h = tt
single-Balances operands binaries (token ∷ []) builder stack h = omega arith
single-Balances operands binaries (token ∷ other ∷ tokens) builder stack h = tt

remaining-Balances :
    (operands binaries : ℕ) (builder : AstBuilder) (stack : OperatorStack)
    → Balances operands binaries stack
    → Ensures (λ s. operands ≡ suc binaries) (pop_remaining builder stack)
unfolding pop_remaining
remaining-Balances operands binaries builder stack h =
    Ensures-bind (λ s. length s.operand_tokens + binaries ≡ operands) (λ s. operands ≡ suc binaries)
      _ _ (all-Balances operands binaries builder stack.operators stack.operand_tokens h)
      (λ u after popped k. single-Balances operands binaries popped.operand_tokens after popped k)

parse-Balances :
    (items : List Item) (builder : AstBuilder)
    → AreOpen items
    → Ensures (λ s. operand_count items ≡ suc (binary_count items)) (parse_items items builder)
unfolding parse_items
parse-Balances items builder o =
    Ensures-bind (Balances (0 + operand_count items) (0 + binary_count items)) _ _ _
      (items-Balances items 0 0 builder (record { operators = []; operand_tokens = [] }) o refl)
      (λ more b s k.
        remaining-Balances (operand_count items) (binary_count items) b s (omega arith))

-- Whatever operands and operators, and opening parentheses, stand in an expression, in whatever order: if
-- it is accepted, there is one operand more than there are binary operators.
pub parse_items-operand_count :
    (items : List Item) (builder after : AstBuilder) (token : ℕ) (stack : OperatorStack)
    → AreOpen items
    → parse_items items builder ≡ built token after stack
    → operand_count items ≡ suc (binary_count items)
parse_items-operand_count items builder after token stack o h =
    subst (Ensures (λ s. operand_count items ≡ suc (binary_count items))) h
      (parse-Balances items builder o)
