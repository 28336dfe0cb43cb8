-- ===== src/Tests.antt =====
-- Runs of the development on concrete inputs: each theorem that has conditions is applied to data
-- that fulfil them.
mod Encodings
mod Sections
mod Tables
mod Payloads
mod Files
mod BodyData
mod Bodies
mod MinVersions
