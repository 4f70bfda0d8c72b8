-- ===== src/CompValues.antt =====
-- core/comp_values.cpp.
pub mod Checked
pub mod Bitwise
pub mod ByteShift
pub mod CompInteger
pub mod CompBits
