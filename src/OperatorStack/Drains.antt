-- ===== src/OperatorStack/Drains.antt =====
-- What popping and pushing of operators in core/parse.cpp does to the stack.
use toy_language.Base.{◌==◌, length, ℕ, ◌≡◌, refl, Bool, true, false, List, [], ◌∷◌, ◌++◌, arith}
use mathlib.Core.List.{append_assoc}
use toy_language.AstPool.{AstBuilder}
use toy_language.OperatorStack.{
  stops, OperatorDescWithSource, OperatorStack, built, pop_operator, pop_to_precedence,
  push_operator, pop_all,
}
use toy_language.OperatorStack.Items.{Item, operator, take_item, take_items}
use toy_language.OperatorStack.Expression.{
  node_for, Tighter, Looser, ArePopped, IsKept, PopsAll, CanPush,
}

abbrev pub stack_of : List OperatorDescWithSource → List ℕ → OperatorStack
stack_of operators operands = record { operators = operators; operand_tokens = operands }

stops-Tighter :
    (precedence : ℕ) (pop_equal : Bool) (top : OperatorDescWithSource)
    → Tighter precedence pop_equal top
    → stops precedence pop_equal top ≡ false
stops-Tighter precedence true top h = ground arith
stops-Tighter precedence false top h = ground arith

pub stops-Looser :
    (precedence : ℕ) (pop_equal : Bool) (top : OperatorDescWithSource)
    → Looser precedence pop_equal top
    → stops precedence pop_equal top ≡ true
stops-Looser precedence true top h = ground arith
stops-Looser precedence false top h = ground arith

-- Popping these operators, above `outer`, leaves the builder and the operands so.
abbrev pub Drains :
    List OperatorDescWithSource
    → List OperatorDescWithSource
    → AstBuilder
    → List ℕ
    → AstBuilder
    → List ℕ
    → Type 0
Drains [] outer builder operands builder' operands' = (builder ≡ builder') × (operands ≡ operands')
Drains (top ∷ operators) outer builder operands builder' operands' =
    (b : AstBuilder) × (o : List ℕ) × (pop_operator builder top (operators ++ outer) operands
      ≡ built tt b (stack_of (operators ++ outer) o))
    × Drains operators outer b o builder' operands'

pub pop-Drains :
    (precedence : ℕ) (pop_equal : Bool) (operators outer : List OperatorDescWithSource)
    (builder builder' : AstBuilder) (operands operands' : List ℕ)
    → ArePopped precedence pop_equal operators
    → Drains operators outer builder operands builder' operands'
    → pop_to_precedence precedence pop_equal builder (operators ++ outer) operands
      ≡ pop_to_precedence precedence pop_equal builder' outer operands'
unfolding pop_to_precedence
pop-Drains precedence pop_equal [] outer builder builder' operands operands' h (e, f) =
    rw (e, f) refl
pop-Drains precedence pop_equal (top ∷ operators) outer builder builder' operands operands' (h, t)
      (b, o, e, d) =
    rw (stops-Tighter precedence pop_equal top h, e)
      (pop-Drains precedence pop_equal operators outer b builder' o operands' t d)

pub pop_all-Drains :
    (operators outer : List OperatorDescWithSource) (builder builder' : AstBuilder)
    (operands operands' : List ℕ)
    → Drains operators outer builder operands builder' operands'
    → pop_all builder (operators ++ outer) operands ≡ pop_all builder' outer operands'
unfolding pop_all
pop_all-Drains [] outer builder builder' operands operands' (e, f) = rw (e, f) refl
pop_all-Drains (top ∷ operators) outer builder builder' operands operands' (b, o, e, d) =
    rw e (pop_all-Drains operators outer b builder' o operands' d)

pub pop_to_precedence-kept :
    (precedence : ℕ) (pop_equal : Bool) (outer : List OperatorDescWithSource) (builder : AstBuilder)
    (operands : List ℕ)
    → IsKept precedence pop_equal outer
    → (found : Bool) × (pop_to_precedence precedence pop_equal builder outer operands
        ≡ built found builder (stack_of outer operands))
unfolding pop_to_precedence
pop_to_precedence-kept precedence pop_equal [] builder operands h = (false, refl)
pop_to_precedence-kept precedence pop_equal (top ∷ outer) builder operands h =
    (true, rw (stops-Looser precedence pop_equal top h) refl)

-- Pushing an operator after an expression, with what it pops.
pub take-operator :
    (op : OperatorDescWithSource) (is_binary : Bool) (waiting outer : List OperatorDescWithSource)
    (builder builder' : AstBuilder) (operands operands' : List ℕ) (more : List Item)
    → CanPush op is_binary outer
    → PopsAll op waiting
    → Drains waiting outer builder operands builder' operands'
    → take_items (operator op ∷ more) builder (stack_of (waiting ++ outer) operands)
      ≡ take_items more builder' (stack_of (op ∷ outer) operands')
unfolding take_items take_item push_operator
take-operator op is_binary waiting outer builder builder' operands operands' more c h d =
    let (found, e) =
      pop_to_precedence-kept op.operator_desc.precedence op.operator_desc.is_right_to_left outer
        builder' operands' c.above in
    let room : (length outer == 64) ≡ false = let r = c.room in ground arith in
    rw
      (
        c.proper,
        pop-Drains op.operator_desc.precedence op.operator_desc.is_right_to_left waiting outer
            builder builder' operands operands' h d,
        e,
        room,
      )
      refl

-- The step of one operator on the operands that its expression has left.
pub drain_one :
    (op : OperatorDescWithSource) (outer : List OperatorDescWithSource) (builder : AstBuilder)
    (first : ℕ) (operands : List ℕ)
    → CanPush op false outer
    → Drains
        (op ∷ [])
        outer
        builder
        (first ∷ operands)
        (node_for op (first, builder) first).1
        ((node_for op (first, builder) first).0 ∷ operands)
unfolding pop_operator
drain_one op outer builder first operands c = (_, _, rw (c.proper, c.arity) refl, (refl, refl))

pub drain_two :
    (op : OperatorDescWithSource) (outer : List OperatorDescWithSource) (builder : AstBuilder)
    (second first : ℕ) (operands : List ℕ)
    → CanPush op true outer
    → Drains
        (op ∷ [])
        outer
        builder
        (second ∷ first ∷ operands)
        (node_for op (second, builder) first).1
        ((node_for op (second, builder) first).0 ∷ operands)
unfolding pop_operator
drain_two op outer builder second first operands c =
    (_, _, rw (c.proper, c.arity) refl, (refl, refl))

pub drain_append :
    (xs ys outer : List OperatorDescWithSource) (b b' b'' : AstBuilder) (o o' o'' : List ℕ)
    → Drains xs (ys ++ outer) b o b' o'
    → Drains ys outer b' o' b'' o''
    → Drains (xs ++ ys) outer b o b'' o''
drain_append [] ys outer b b' b'' o o' o'' (e, f) d = rw (e, f) d
drain_append (x ∷ xs) ys outer b b' b'' o o' o'' (c, p, e, h) d =
    (c, p, rw (append_assoc xs ys outer) e, drain_append xs ys outer c b' b'' p o' o'' h d)
