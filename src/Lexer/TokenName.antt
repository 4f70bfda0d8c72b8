-- ===== src/Lexer/TokenName.antt =====
-- `token_name` of core/parse.cpp.
use Prim.Native.String.{String}
use toy_language.Lexer.Tokens.{
  Token, empty, kwd_if, kwd_then, kwd_else, kwd_for, kwd_do, kwd_finally, kwd_switch, kwd_case,
  kwd_func, kwd_proc, kwd_trait, kwd_impl, kwd_self, kwd_where, kwd_expects, kwd_ensures, kwd_catch,
  kwd_let, kwd_pub, kwd_mut, kwd_unreachable, kwd_undefined, kwd_return, kwd_leave, kwd_yield,
  op_member_or_ref, double_dot, array_initializer, composite_initializer, bracket_r, bracket_l,
  curly_r, curly_l, paren_r, paren_l, kwd_eval, kwd_try, kwd_defer, kwd_distinct, uop_not,
  uop_log_not, typ_opt_ptr, typ_var, typ_tail_array, typ_multi_ptr, typ_opt_multi_ptr, typ_slice,
  op_mul_or_typ_ptr, op_sub, op_add, op_div, op_add_tc, op_sub_tc, op_mul_tc, op_mod, uop_addr,
  uop_deref, op_and, op_or, op_xor, op_shl, op_shr, op_log_and, op_log_or, op_lt, op_gt, op_le,
  op_ge, op_ne, op_eq, op_set, op_set_add, op_set_sub, op_set_mul, op_set_div, op_set_add_tc,
  op_set_sub_tc, op_set_mul_tc, op_set_mod, op_set_and, op_set_or, op_set_xor, op_set_shl,
  op_set_shr, colon_token, comma_token, thin_arrow_l, thin_arrow_r, wide_arrow_r, pragma_token,
  lit_integer, lit_float, lit_char, lit_string, ident_token, builtin_token, wildcard_token,
  end_of_source,
}

unfoldable pub token_name : Token → String
token_name empty = "[Unknown]"
token_name kwd_if = "if"
token_name kwd_then = "then"
token_name kwd_else = "else"
token_name kwd_for = "for"
token_name kwd_do = "do"
token_name kwd_finally = "finally"
token_name kwd_switch = "switch"
token_name kwd_case = "case"
token_name kwd_func = "func"
token_name kwd_proc = "proc"
token_name kwd_trait = "trait"
token_name kwd_impl = "impl"
token_name kwd_self = "self"
token_name kwd_where = "where"
token_name kwd_expects = "expects"
token_name kwd_ensures = "ensures"
token_name kwd_catch = "catch"
token_name kwd_let = "let"
token_name kwd_pub = "pub"
token_name kwd_mut = "mut"
token_name kwd_unreachable = "unreachable"
token_name kwd_undefined = "undefined"
token_name kwd_return = "return"
token_name kwd_leave = "leave"
token_name kwd_yield = "yield"
token_name op_member_or_ref = "."
token_name double_dot = ".."
token_name array_initializer = ".["
token_name composite_initializer = ".{"
token_name bracket_r = "]"
token_name bracket_l = "["
token_name curly_r = "}"
token_name curly_l = "{"
token_name paren_r = ")"
token_name paren_l = "("
token_name kwd_eval = "eval"
token_name kwd_try = "try"
token_name kwd_defer = "defer"
token_name kwd_distinct = "distinct"
token_name uop_not = "~"
token_name uop_log_not = "!"
token_name typ_opt_ptr = "?"
token_name typ_var = "..."
token_name typ_tail_array = "[...]"
token_name typ_multi_ptr = "[*]"
token_name typ_opt_multi_ptr = "[?]"
token_name typ_slice = "[]"
token_name op_mul_or_typ_ptr = "*"
token_name op_sub = "-"
token_name op_add = "+"
token_name op_div = "/"
token_name op_add_tc = "+:"
token_name op_sub_tc = "-:"
token_name op_mul_tc = "*:"
token_name op_mod = "%"
token_name uop_addr = ".&"
token_name uop_deref = ".*"
token_name op_and = "&"
token_name op_or = "|"
token_name op_xor = "^"
token_name op_shl = "<<"
token_name op_shr = ">>"
token_name op_log_and = "&&"
token_name op_log_or = "||"
token_name op_lt = "<"
token_name op_gt = ">"
token_name op_le = "<="
token_name op_ge = ">="
token_name op_ne = "!="
token_name op_eq = "=="
token_name op_set = "="
token_name op_set_add = "+="
token_name op_set_sub = "-="
token_name op_set_mul = "*="
token_name op_set_div = "/="
token_name op_set_add_tc = "+:="
token_name op_set_sub_tc = "-:="
token_name op_set_mul_tc = "*:="
token_name op_set_mod = "%="
token_name op_set_and = "&="
token_name op_set_or = "|="
token_name op_set_xor = "^="
token_name op_set_shl = "<<="
token_name op_set_shr = ">>="
token_name colon_token = ":"
token_name comma_token = ","
token_name thin_arrow_l = "<-"
token_name thin_arrow_r = "->"
token_name wide_arrow_r = "=>"
token_name pragma_token = "#"
token_name lit_integer = "LiteralInteger"
token_name lit_float = "LiteralFloat"
token_name lit_char = "LiteralChar"
token_name lit_string = "LiteralString"
token_name ident_token = "Identifier"
token_name builtin_token = "Builtin"
token_name wildcard_token = "_"
token_name end_of_source = "[END-OF-SOURCE]"
