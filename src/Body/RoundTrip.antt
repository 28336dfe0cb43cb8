-- ===== src/Body/RoundTrip.antt =====
-- A function body that was written is read back, with the same values for the operands.
pub mod HeadTrip
pub mod Numbering
pub mod Scopes
pub mod Kept
pub mod Heads
pub mod Steps
pub mod Parts
pub mod Trips
pub mod Operations
pub mod Function
