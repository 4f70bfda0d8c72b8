-- ===== src/Tests/OperatorStack.antt =====
-- core/parse.cpp, the operator stack at concrete expressions.
use toy_language.Base.{suc, ◌≡◌, refl, true, [], ◌∷◌, arith}
use toy_language.Templating.{op_add, op_mul, uop_addr, uop_deref, wildcard}
use toy_language.AstPool.{AstBuilder}
use toy_language.OperatorStack.{OperatorDescWithSource, unary, binary, built}
use toy_language.OperatorStack.Items.{opening, parse_items}
use toy_language.OperatorStack.Parens.{parse_items-unclosed}
use toy_language.OperatorStack.Balance.{operand_count, binary_count}
use toy_language.OperatorStack.Accepted.{parse_items-operand_count}
use toy_language.OperatorStack.Expression.{
  paren, Expression, leaf, infix_of, items, construct, Fits,
}
use toy_language.OperatorStack.Drains.{stack_of}
use toy_language.OperatorStack.Builds.{parse_items-construct}

abbrev empty_builder : AstBuilder
empty_builder = record { nodes = []; sources = [] }

abbrev plus : OperatorDescWithSource
plus = record { operator_desc = binary op_add 3 true; source_id = 1 }

abbrev times : OperatorDescWithSource
times = record { operator_desc = binary op_mul 2 true; source_id = 3 }

-- `_ + _ * _`.
abbrev sum_and_product : Expression
sum_and_product =
    infix_of plus (leaf 0 0 wildcard 0) (infix_of times (leaf 2 0 wildcard 0) (leaf 4 0 wildcard 0))

sum_and_product-Fits : Fits [] 0 sum_and_product
sum_and_product-Fits = (
  record { proper = refl; arity = refl; room = omega arith; above = tt },
  tt,
  omega arith,
  (
    record { proper = refl; arity = refl; room = omega arith; above = omega arith },
    tt,
    omega arith,
    omega arith,
  ),
)

parse_items-construct_example : parse_items (items sum_and_product) empty_builder ≡ (
    let (token, after) = construct sum_and_product empty_builder in
    built token after (stack_of [] (token ∷ [])))
parse_items-construct_example =
    parse_items-construct sum_and_product empty_builder sum_and_product-Fits

abbrev addr : OperatorDescWithSource
addr = record { operator_desc = unary uop_addr 0 1; source_id = 1 }

abbrev deref : OperatorDescWithSource
deref = record { operator_desc = unary uop_deref 0 1; source_id = 2 }

within_paren-Fits : Fits (paren 9 ∷ []) 0 sum_and_product
within_paren-Fits = (
  record { proper = refl; arity = refl; room = omega arith; above = omega arith },
  tt,
  omega arith,
  (
    record { proper = refl; arity = refl; room = omega arith; above = omega arith },
    tt,
    omega arith,
    omega arith,
  ),
)

-- `(_ + _ * _` is accepted.
parse_items-unclosed_example : parse_items (opening 9 ∷ items sum_and_product) empty_builder ≡ (
    let (token, after) = construct sum_and_product empty_builder in
    built token after (stack_of [] (token ∷ [])))
parse_items-unclosed_example =
    parse_items-unclosed 9 sum_and_product empty_builder within_paren-Fits

parse_items-operand_count_example :
    operand_count (items sum_and_product) ≡ suc (binary_count (items sum_and_product))
parse_items-operand_count_example =
    parse_items-operand_count (items sum_and_product) empty_builder
      (construct sum_and_product empty_builder).1 (construct sum_and_product empty_builder).0
      (stack_of [] ((construct sum_and_product empty_builder).0 ∷ [])) tt
      (parse_items-construct sum_and_product empty_builder sum_and_product-Fits)
