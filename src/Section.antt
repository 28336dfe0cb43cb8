-- ===== src/Section.antt =====
-- The sections of a bytecode file: their headers and their payloads.
pub mod Steps
pub mod FileBytes
pub mod Ids
pub mod Header
pub mod HeaderTrip
pub mod Frame
pub mod Container
pub mod Reads
pub mod Termination
pub mod ContainerTrip
pub mod File
