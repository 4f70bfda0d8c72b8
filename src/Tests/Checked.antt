-- ===== src/Tests/Checked.antt =====
-- core/comp_values.cpp, the checked arithmetic at concrete operands.
use toy_language.Base.{w8, ◌-ℤ◌, pos, ◌+◌, ◌*◌, arith}
use toy_language.CompValues.Checked.{add_checked_u, sub_checked_u, mul_checked_u}
use toy_language.CompValues.Checked.Exact.{ExactU, checked_u-Exact}

checked_u-Exact_example :
    ExactU w8 (pos (200 + 100)) (add_checked_u w8 200 100)
    × ExactU w8 (pos 200 -ℤ pos 100) (sub_checked_u w8 200 100)
    × ExactU w8 (pos (200 * 100)) (mul_checked_u w8 200 100)
checked_u-Exact_example = checked_u-Exact w8 200 100 (omega arith) (omega arith)
