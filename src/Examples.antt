-- ===== src/Examples.antt =====
-- Tests of the definitions on inputs of the source's own tests, and instances of the theorems.
pub mod Handler
pub mod Service
pub mod Attempts
pub mod Histories
pub mod Sources
pub mod Sessions
pub mod Clients
pub mod Codec
pub mod Rendering
pub mod Storage
pub mod Table
pub mod Memory
pub mod Answers
pub mod Concurrency
pub mod Contention
pub mod Progress
pub mod AtOnce
pub mod Overlap
