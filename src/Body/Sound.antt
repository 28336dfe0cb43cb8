-- ===== src/Body/Sound.antt =====
-- What the reader guarantees of any bytes that it accepts as the body of a function.
pub mod Scoped
pub mod Operands
pub mod Blocks
pub mod Function
