-- ===== src/Tests/CompInteger.antt =====
-- core/comp_values.cpp, the operations on compile-time integers at concrete values.
use toy_language.Base.{◌*ℤ◌, ◌+ℤ◌, quot_ℤ, rem_ℤ, ◌-◌, ◌^◌, refl, inl, arith}
use toy_language.CompValues.CompInteger.{
  CompIntegerValue, comp_integer_add, comp_integer_mul, comp_integer_div, comp_integer_mod,
}
use toy_language.CompValues.CompInteger.Value.{
  value, Computes, comp_integer_add-Computes, comp_integer_mul-Computes,
}
use toy_language.CompValues.CompInteger.Division.{
  Divides, comp_integer_div-Divides, comp_integer_mod-Divides,
}

abbrev minus_seven : CompIntegerValue
minus_seven = record { rep = 2 ^ 64 - 14 }

abbrev three : CompIntegerValue
three = record { rep = 6 }

abbrev least : CompIntegerValue
least = record { rep = 2 ^ 63 }

comp_integer_add-Computes_example :
    Computes (value minus_seven +ℤ value three) (comp_integer_add minus_seven three)
comp_integer_add-Computes_example =
    comp_integer_add-Computes minus_seven three (omega arith, refl) (omega arith, refl)

comp_integer_mul-Computes_example :
    Computes (value minus_seven *ℤ value three) (comp_integer_mul minus_seven three)
comp_integer_mul-Computes_example =
    comp_integer_mul-Computes minus_seven three (omega arith, refl) (omega arith, refl)

comp_integer_div-Divides_example :
    Divides
      (quot_ℤ (value minus_seven) (value three))
      (value three)
      (comp_integer_div minus_seven three)
comp_integer_div-Divides_example =
    comp_integer_div-Divides minus_seven three (omega arith, refl) (omega arith, refl)
      (inl (ground arith))

comp_integer_mod-Divides_example :
    Divides
      (rem_ℤ (value minus_seven) (value three))
      (value three)
      (comp_integer_mod minus_seven three)
comp_integer_mod-Divides_example =
    comp_integer_mod-Divides minus_seven three (omega arith, refl) (omega arith, refl)
