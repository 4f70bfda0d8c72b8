-- ===== src/Tests/Convert.antt =====
-- core/comp_values.cpp, conversions, comparison and shifts of compile-time integers at concrete
-- values.
use toy_language.Base.{◌-◌, ◌^◌}
use toy_language.CompValues.CompInteger.{CompIntegerValue}

abbrev minus_seven : CompIntegerValue
minus_seven = record { rep = 2 ^ 64 - 14 }

abbrev three : CompIntegerValue
three = record { rep = 6 }

abbrev zero_value : CompIntegerValue
zero_value = record { rep = 0 }
