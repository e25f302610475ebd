-- ===== src/Store.antt =====
-- The storage of counts and recent visitors, src/store.rs.
pub mod Time
pub mod Visitor
pub mod Entry
pub mod Dynamo
pub mod Recent
pub mod Client
pub mod Increment
pub mod System
pub mod Serial
pub mod Fake
