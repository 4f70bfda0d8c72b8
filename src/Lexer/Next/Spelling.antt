-- ===== src/Lexer/Next/Spelling.antt =====
-- The operators of `next_without_source` against `token_name`, of core/parse.cpp.
use Prim.Native.Char.{code}
use Prim.Native.String.{String}
use toy_language.Base.{ℕ, ◌≡◌, List, [], ◌∷◌, ◌++◌}
use toy_language.Lexer.{scanned, is_alphabetic_char, is_numeric_char}
use toy_language.Lexer.Tokens.{
  Token, operator_token, op_member_or_ref, double_dot, array_initializer, composite_initializer,
  bracket_r, bracket_l, curly_r, curly_l, paren_r, paren_l, uop_not, uop_log_not, typ_opt_ptr,
  typ_var, typ_tail_array, typ_multi_ptr, typ_opt_multi_ptr, typ_slice, op_mul_or_typ_ptr, op_sub,
  op_add, op_div, op_add_tc, op_sub_tc, op_mul_tc, op_mod, uop_addr, uop_deref, op_and, op_or,
  op_xor, op_shl, op_shr, op_log_and, op_lt, op_gt, op_le, op_ge, op_ne, op_eq, op_set, op_set_add,
  op_set_sub, op_set_mul, op_set_div, op_set_add_tc, op_set_sub_tc, op_set_mul_tc, op_set_mod,
  op_set_and, op_set_or, op_set_xor, op_set_shl, op_set_shr, colon_token, comma_token, thin_arrow_l,
  thin_arrow_r, wide_arrow_r, pragma_token,
}
use toy_language.Lexer.TokenName.{token_name}
use toy_language.Lexer.Next.{Surroundings, plain, next_without_source}

abbrev pub codes : String → List ℕ
codes String.[] = []
codes (String.◌∷◌ c s) = code c ∷ codes s

-- The tokens that are operators, but for `||`.
abbrev pub operators : List Token
operators =
    op_member_or_ref ∷ double_dot ∷ array_initializer ∷ composite_initializer ∷ bracket_r
    ∷ bracket_l ∷ curly_r ∷ curly_l ∷ paren_r ∷ paren_l ∷ uop_not ∷ uop_log_not ∷ typ_opt_ptr
    ∷ typ_var ∷ typ_tail_array ∷ typ_multi_ptr ∷ typ_opt_multi_ptr ∷ typ_slice ∷ op_mul_or_typ_ptr
    ∷ op_sub ∷ op_add ∷ op_div ∷ op_add_tc ∷ op_sub_tc ∷ op_mul_tc ∷ op_mod ∷ uop_addr ∷ uop_deref
    ∷ op_and ∷ op_or ∷ op_xor ∷ op_shl ∷ op_shr ∷ op_log_and ∷ op_lt ∷ op_gt ∷ op_le ∷ op_ge ∷ op_ne
    ∷ op_eq ∷ op_set ∷ op_set_add ∷ op_set_sub ∷ op_set_mul ∷ op_set_div ∷ op_set_add_tc
    ∷ op_set_sub_tc ∷ op_set_mul_tc ∷ op_set_mod ∷ op_set_and ∷ op_set_or ∷ op_set_xor ∷ op_set_shl
    ∷ op_set_shr ∷ colon_token ∷ comma_token ∷ thin_arrow_l ∷ thin_arrow_r ∷ wide_arrow_r
    ∷ pragma_token ∷ []

abbrev pub All {ℓ κ} : {A : Type ℓ} → (A → Type κ) → List A → Type κ
All P [] = Unit
All P (x ∷ xs) = P x × All P xs

-- The name of the token, before a blank, scans as the token.
abbrev pub Scans {ℓ} : {Float : Type ℓ} → Surroundings Float → List ℕ → Token → Type ℓ
Scans around rest t =
    next_without_source around (codes (token_name t) ++ (b' ' ∷ rest))
    ≡ scanned (plain t) (b' ' ∷ rest)

-- The name of every operator but `||`, before a blank, is scanned as that operator, and the scan
-- stops at the blank.
pub operators-Scans {ℓ} :
    {Float : Type ℓ} (around : Surroundings Float) (rest : List ℕ)
    → All (Scans around rest) operators
unfolding next_without_source operator_token token_name is_alphabetic_char is_numeric_char
operators-Scans around rest = search
