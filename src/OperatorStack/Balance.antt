-- ===== src/OperatorStack/Balance.antt =====
-- Operands against binary operators on the operator stack of core/parse.cpp.
use toy_language.Base.{
  ◌==◌, if◌then◌else◌, Bool-cases, length, ℕ, suc, ◌+◌, ◌≡◌, refl, inl, inr, Bool, true, false,
  List, [], ◌∷◌, arith,
}
use toy_language.AstPool.{AstBuilder, push_node}
use toy_language.OperatorStack.{
  OperatorDescWithSource, OperatorStack, Outcome, built, failed, bind, is_invalid, apply_operator,
  pop_operator, stops, pop_to_precedence, add_operator, push_operator, pop_all,
}
use toy_language.OperatorStack.Items.{Item, operand, operator, opening, closing}

-- How many operands an operator takes away.
abbrev pub weight : OperatorDescWithSource → ℕ
weight op =
    if is_invalid op.operator_desc.node_type then 0 else if op.operator_desc.is_binary then 1 else 0

abbrev pub weights : List OperatorDescWithSource → ℕ
weights [] = 0
weights (op ∷ operators) = weight op + weights operators

abbrev pub operand_count : List Item → ℕ
operand_count [] = 0
operand_count (operand source_id flags tag qwords ∷ items) = suc (operand_count items)
operand_count (operator op ∷ items) = operand_count items
operand_count (opening source_id ∷ items) = operand_count items
operand_count (closing ∷ items) = operand_count items

abbrev pub binary_count : List Item → ℕ
binary_count [] = 0
binary_count (operand source_id flags tag qwords ∷ items) = binary_count items
binary_count (operator op ∷ items) = weight op + binary_count items
binary_count (opening source_id ∷ items) = binary_count items
binary_count (closing ∷ items) = binary_count items

-- No parenthesis is closed.
abbrev pub AreOpen : List Item → Type 0
AreOpen [] = Unit {0}
AreOpen (operand source_id flags tag qwords ∷ items) = AreOpen items
AreOpen (operator op ∷ items) = AreOpen items
AreOpen (opening source_id ∷ items) = AreOpen items
AreOpen (closing ∷ items) = ⊥

-- What holds of the stack if the operation does not fail.
abbrev pub Ensures : {A : Type 0} → (OperatorStack → Type 0) → Outcome A → Type 0
Ensures P (built a builder stack) = P stack
Ensures P (failed e) = Unit {0}

pub Ensures-bind :
    {A B : Type 0} (P Q : OperatorStack → Type 0) (m : Outcome A)
    (f : A → AstBuilder → OperatorStack → Outcome B)
    → Ensures P m
    → ((a : A) (builder : AstBuilder) (stack : OperatorStack)
        → P stack
        → Ensures Q (f a builder stack))
    → Ensures Q (bind m f)
Ensures-bind P Q (built a builder stack) f h k = k a builder stack h
Ensures-bind P Q (failed e) f h k = tt

-- The operands that are left when every operator on the stack is applied, and the binary operators
-- before, are all that there were.
abbrev pub Balances : ℕ → ℕ → OperatorStack → Type 0
Balances operands binaries stack =
    length stack.operand_tokens + binaries ≡ operands + weights stack.operators

apply-Balances :
    (builder : AstBuilder) (is_binary : Bool) (top : OperatorDescWithSource)
    (operators : List OperatorDescWithSource) (tokens : List ℕ)
    → Ensures
        (λ s.
          (s.operators ≡ operators)
          × (length tokens ≡ length s.operand_tokens + (if is_binary then 1 else 0)))
        (apply_operator builder is_binary top operators tokens)
apply-Balances builder true top operators [] = tt
apply-Balances builder true top operators (second ∷ []) = tt
apply-Balances builder true top operators (second ∷ first ∷ tokens) =
    unfold push_node in (refl, omega arith)
apply-Balances builder false top operators [] = tt
apply-Balances builder false top operators (first ∷ tokens) =
    unfold push_node in (refl, omega arith)

pop-Balances :
    (builder : AstBuilder) (top : OperatorDescWithSource) (operators : List OperatorDescWithSource)
    (tokens : List ℕ)
    → Ensures
        (λ s. (s.operators ≡ operators) × (length tokens ≡ length s.operand_tokens + weight top))
        (pop_operator builder top operators tokens)
unfolding pop_operator
pop-Balances builder top operators tokens =
    elim (Bool-cases (is_invalid top.operator_desc.node_type)) [
      | inl paren ↦ rw paren (refl, omega arith)
      | inr proper ↦
          rw proper (apply-Balances builder top.operator_desc.is_binary top operators tokens)
    ]

to_precedence-Balances :
    (operands binaries precedence : ℕ) (pop_equal : Bool) (builder : AstBuilder)
    (operators : List OperatorDescWithSource) (tokens : List ℕ)
    → length tokens + binaries ≡ operands + weights operators
    → Ensures
        (Balances operands binaries)
        (pop_to_precedence precedence pop_equal builder operators tokens)
unfolding pop_to_precedence
to_precedence-Balances operands binaries precedence pop_equal builder [] tokens h = h
to_precedence-Balances operands binaries precedence pop_equal builder (top ∷ operators) tokens h =
    elim (Bool-cases (stops precedence pop_equal top)) [
      | inl stop ↦ rw stop h
      | inr go ↦ rw go (
          Ensures-bind _ (Balances operands binaries) (pop_operator builder top operators tokens) _
            (pop-Balances builder top operators tokens)
            (λ a after stack (e, k).
              to_precedence-Balances operands binaries precedence pop_equal after operators
                stack.operand_tokens (omega arith)))
    ]

pub all-Balances :
    (operands binaries : ℕ) (builder : AstBuilder) (operators : List OperatorDescWithSource)
    (tokens : List ℕ)
    → length tokens + binaries ≡ operands + weights operators
    → Ensures
        (λ s. length s.operand_tokens + binaries ≡ operands)
        (pop_all builder operators tokens)
unfolding pop_all
all-Balances operands binaries builder [] tokens h = omega arith
all-Balances operands binaries builder (top ∷ operators) tokens h =
    Ensures-bind _ _ (pop_operator builder top operators tokens) _
      (pop-Balances builder top operators tokens)
      (λ a after stack (e, k).
        all-Balances operands binaries after operators stack.operand_tokens (omega arith))

add-Balances :
    (operands binaries : ℕ) (op : OperatorDescWithSource) (builder : AstBuilder)
    (stack : OperatorStack)
    → Balances operands binaries stack
    → Ensures (Balances operands (binaries + weight op)) (add_operator op builder stack)
add-Balances operands binaries op builder stack h =
    elim (Bool-cases (length stack.operators == 64)) [
      | inl full ↦ rw full tt
      | inr room ↦ rw room (omega arith)
    ]

pub push-Balances :
    (operands binaries : ℕ) (op : OperatorDescWithSource) (builder : AstBuilder)
    (stack : OperatorStack)
    → Balances operands binaries stack
    → Ensures (Balances operands (binaries + weight op)) (push_operator builder stack op)
unfolding push_operator
push-Balances operands binaries op builder stack h =
    elim (Bool-cases (is_invalid op.operator_desc.node_type)) [
      | inl paren ↦ rw paren (rw paren at (add-Balances operands binaries op builder stack h))
      | inr proper ↦ rw proper (
          rw proper at (
            Ensures-bind (Balances operands binaries) (Balances operands (binaries + weight op)) _ _
              (to_precedence-Balances operands binaries op.operator_desc.precedence
                op.operator_desc.is_right_to_left builder stack.operators stack.operand_tokens h)
              (λ a after popped k. add-Balances operands binaries op after popped k)))
    ]
