-- ===== src/Bignum.antt =====
-- ios/Classes/bignum.c.
pub mod Limbs
pub mod Add
pub mod Compare
pub mod Shift
pub mod Divide
pub mod Reduce
pub mod Multiply
pub mod Bytes
pub mod Congruence
pub mod Power
mod Tests
