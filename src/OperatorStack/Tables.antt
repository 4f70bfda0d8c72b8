-- ===== src/OperatorStack/Tables.antt =====
-- The tables of operators of core/parse.cpp.
use toy_language.Base.{ℕ, true, false, List, [], ◌∷◌}
use toy_language.Templating.{
  uop_eval, uop_try, uop_defer, uop_distinct, uop_bit_not, uop_log_not, uop_type_opt_ptr,
  uop_type_var_args, uop_type_tail_array, uop_type_multi_ptr, uop_type_opt_multi_ptr,
  uop_type_slice, uop_type_ptr, uop_negate, uop_pos, op_mul, op_sub, op_add, op_div, op_add_tc,
  op_sub_tc, op_mul_tc, op_mod, uop_addr, uop_deref, op_bit_and, op_bit_or, op_bit_xor, op_shift_l,
  op_shift_r, op_log_and, op_log_or, op_cmp_lt, op_cmp_gt, op_cmp_le, op_cmp_ge, op_cmp_ne,
  op_cmp_eq, op_set, op_set_add, op_set_sub, op_set_mul, op_set_div, op_set_add_tc, op_set_sub_tc,
  op_set_mul_tc, op_set_mod, op_set_bit_and, op_set_bit_or, op_set_bit_xor, op_set_shift_l,
  op_set_shift_r,
}
use toy_language.OperatorStack.{OperatorDesc, unary, binary, lparen}

-- `AstFlag::Type_IsMut`.
abbrev type_is_mut : ℕ
type_is_mut = 2

abbrev pub unary_operator_descs : List OperatorDesc
unary_operator_descs =
    lparen
    ∷ unary uop_eval 0 8
    ∷ unary uop_try 0 8
    ∷ unary uop_defer 0 8
    ∷ unary uop_distinct 0 2
    ∷ unary uop_bit_not 0 2
    ∷ unary uop_log_not 0 2
    ∷ unary uop_type_opt_ptr type_is_mut 2
    ∷ unary uop_type_var_args 0 2
    ∷ unary uop_type_tail_array 0 2
    ∷ unary uop_type_multi_ptr type_is_mut 2
    ∷ unary uop_type_opt_multi_ptr type_is_mut 2
    ∷ unary uop_type_slice type_is_mut 2
    ∷ unary uop_type_ptr type_is_mut 2
    ∷ unary uop_negate 0 2
    ∷ unary uop_pos 0 2
    ∷ []

abbrev pub binary_operator_descs : List OperatorDesc
binary_operator_descs =
    binary op_mul 2 true
    ∷ binary op_sub 3 true
    ∷ binary op_add 3 true
    ∷ binary op_div 2 true
    ∷ binary op_add_tc 3 true
    ∷ binary op_sub_tc 3 true
    ∷ binary op_mul_tc 2 true
    ∷ binary op_mod 2 true
    ∷ unary uop_addr 0 1
    ∷ unary uop_deref 0 1
    ∷ binary op_bit_and 6 true
    ∷ binary op_bit_or 6 true
    ∷ binary op_bit_xor 6 true
    ∷ binary op_shift_l 4 true
    ∷ binary op_shift_r 4 true
    ∷ binary op_log_and 7 true
    ∷ binary op_log_or 7 true
    ∷ binary op_cmp_lt 5 true
    ∷ binary op_cmp_gt 5 true
    ∷ binary op_cmp_le 5 true
    ∷ binary op_cmp_ge 5 true
    ∷ binary op_cmp_ne 5 true
    ∷ binary op_cmp_eq 5 true
    ∷ binary op_set 9 false
    ∷ binary op_set_add 9 false
    ∷ binary op_set_sub 9 false
    ∷ binary op_set_mul 9 false
    ∷ binary op_set_div 9 false
    ∷ binary op_set_add_tc 9 false
    ∷ binary op_set_sub_tc 9 false
    ∷ binary op_set_mul_tc 9 false
    ∷ binary op_set_mod 9 false
    ∷ binary op_set_bit_and 9 false
    ∷ binary op_set_bit_or 9 false
    ∷ binary op_set_bit_xor 9 false
    ∷ binary op_set_shift_l 9 false
    ∷ binary op_set_shift_r 9 false
    ∷ []
