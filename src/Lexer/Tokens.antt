-- ===== src/Lexer/Tokens.antt =====
-- Tokens: `Token` of core/parse.cpp, and the cases of `next_without_source` for operators.
use toy_language.Base.{◌==◌, if◌then◌else◌, ℕ, ◌&&◌, Option, none, some, List}
use toy_language.Lexer.{char_at}

pub data Token : Type 0 where
  empty kwd_if kwd_then kwd_else kwd_for kwd_do kwd_finally kwd_switch kwd_case : Token
  kwd_func kwd_proc kwd_trait kwd_impl kwd_self kwd_where kwd_expects kwd_ensures : Token
  kwd_catch kwd_let kwd_pub kwd_mut kwd_unreachable kwd_undefined kwd_return kwd_leave : Token
  kwd_yield op_member_or_ref double_dot array_initializer composite_initializer : Token
  bracket_r bracket_l curly_r curly_l paren_r paren_l kwd_eval kwd_try kwd_defer : Token
  kwd_distinct uop_not uop_log_not typ_opt_ptr typ_var typ_tail_array typ_multi_ptr : Token
  typ_opt_multi_ptr typ_slice op_mul_or_typ_ptr op_sub op_add op_div op_add_tc : Token
  op_sub_tc op_mul_tc op_mod uop_addr uop_deref op_and op_or op_xor op_shl op_shr : Token
  op_log_and op_log_or op_lt op_gt op_le op_ge op_ne op_eq op_set op_set_add : Token
  op_set_sub op_set_mul op_set_div op_set_add_tc op_set_sub_tc op_set_mul_tc : Token
  op_set_mod op_set_and op_set_or op_set_xor op_set_shl op_set_shr colon_token : Token
  comma_token thin_arrow_l thin_arrow_r wide_arrow_r pragma_token lit_integer : Token
  lit_float lit_char lit_string ident_token builtin_token wildcard_token end_of_source : Token

-- The token of an operator that begins with the character named, and how many more it takes, from
-- the characters after that.
abbrev pub after_plus : ℕ → ℕ → Token × ℕ
after_plus second third =
    if second == b'='
    then (op_set_add, 1)
    else if second == b':'
    then (if third == b'=' then (op_set_add_tc, 2) else (op_add_tc, 1))
    else (op_add, 0)

abbrev pub after_minus : ℕ → ℕ → Token × ℕ
after_minus second third =
    if second == b'>'
    then (thin_arrow_r, 1)
    else if second == b':'
    then (if third == b'=' then (op_set_sub_tc, 2) else (op_sub_tc, 1))
    else if second == b'='
    then (op_set_sub, 1)
    else (op_sub, 0)

abbrev pub after_star : ℕ → ℕ → Token × ℕ
after_star second third =
    if second == b'='
    then (op_set_mul, 1)
    else if second == b':'
    then (if third == b'=' then (op_set_mul_tc, 2) else (op_mul_tc, 1))
    else (op_mul_or_typ_ptr, 0)

abbrev pub after_slash : ℕ → Token × ℕ
after_slash second = if second == b'=' then (op_set_div, 1) else (op_div, 0)

abbrev pub after_percent : ℕ → Token × ℕ
after_percent second = if second == b'=' then (op_set_mod, 1) else (op_mod, 0)

abbrev pub after_ampersand : ℕ → Token × ℕ
after_ampersand second =
    if second == b'&'
    then (op_log_and, 1)
    else if second == b'='
    then (op_set_and, 1)
    else (op_and, 0)

abbrev pub after_bar : ℕ → Token × ℕ
after_bar second =
    if second == b'|'
    then (op_log_and, 1)
    else if second == b'='
    then (op_set_or, 1)
    else (op_or, 0)

abbrev pub after_caret : ℕ → Token × ℕ
after_caret second = if second == b'=' then (op_set_xor, 1) else (op_xor, 0)

abbrev pub after_less : ℕ → ℕ → Token × ℕ
after_less second third =
    if second == b'<'
    then (if third == b'=' then (op_set_shl, 2) else (op_shl, 1))
    else if second == b'='
    then (op_le, 1)
    else if second == b'-'
    then (thin_arrow_l, 1)
    else (op_lt, 0)

abbrev pub after_greater : ℕ → ℕ → Token × ℕ
after_greater second third =
    if second == b'>'
    then (if third == b'=' then (op_set_shr, 2) else (op_shr, 1))
    else if second == b'='
    then (op_ge, 1)
    else (op_gt, 0)

abbrev pub after_dot : ℕ → ℕ → Token × ℕ
after_dot second third =
    if second == b'.'
    then (if third == b'.' then (typ_var, 2) else (double_dot, 1))
    else if second == b'*'
    then (uop_deref, 1)
    else if second == b'['
    then (array_initializer, 1)
    else if second == b'{'
    then (composite_initializer, 1)
    else if second == b'&'
    then (uop_addr, 1)
    else (op_member_or_ref, 0)

abbrev pub after_bang : ℕ → Token × ℕ
after_bang second = if second == b'=' then (op_ne, 1) else (uop_log_not, 0)

abbrev pub after_equals : ℕ → Token × ℕ
after_equals second =
    if second == b'=' then (op_eq, 1) else if second == b'>' then (wide_arrow_r, 1) else (op_set, 0)

-- The operators that begin with `[`, from the text after it.
abbrev pub after_bracket : List ℕ → Token × ℕ
after_bracket curr =
    let second = char_at curr 0 in
    let third = char_at curr 1 in
    if second == b'.' && third == b'.' && char_at curr 2 == b'.' && char_at curr 3 == b']'
    then (typ_tail_array, 4)
    else if second == b'*' && third == b']'
    then (typ_multi_ptr, 2)
    else if second == b'?' && third == b']'
    then (typ_opt_multi_ptr, 2)
    else if second == b']'
    then (typ_slice, 1)
    else (bracket_l, 0)

-- The operator that `first` begins, if one does.
unfoldable pub operator_token : ℕ → List ℕ → Option (Token × ℕ)
operator_token first curr =
    let second = char_at curr 0 in
    let third = char_at curr 1 in
    if first == b'+'
    then some (after_plus second third)
    else if first == b'-'
    then some (after_minus second third)
    else if first == b'*'
    then some (after_star second third)
    else if first == b'/'
    then some (after_slash second)
    else if first == b'%'
    then some (after_percent second)
    else if first == b'&'
    then some (after_ampersand second)
    else if first == b'|'
    then some (after_bar second)
    else if first == b'^'
    then some (after_caret second)
    else if first == b'<'
    then some (after_less second third)
    else if first == b'>'
    then some (after_greater second third)
    else if first == b'.'
    then some (after_dot second third)
    else if first == b'!'
    then some (after_bang second)
    else if first == b'='
    then some (after_equals second)
    else if first == b'~'
    then some (uop_not, 0)
    else if first == b'?'
    then some (typ_opt_ptr, 0)
    else if first == b':'
    then some (colon_token, 0)
    else if first == b','
    then some (comma_token, 0)
    else if first == b'#'
    then some (pragma_token, 0)
    else if first == b'['
    then some (after_bracket curr)
    else if first == b']'
    then some (bracket_r, 0)
    else if first == b'{'
    then some (curly_l, 0)
    else if first == b'}'
    then some (curly_r, 0)
    else if first == b'('
    then some (paren_l, 0)
    else if first == b')'
    then some (paren_r, 0)
    else none
