-- ===== src/SourceTests.antt =====
-- The tests of src/store.rs and src/request_info.rs: what they assert, and the fakes of DynamoDB that
-- they answer with. A failed assertion is `none`, as a panic is.
pub mod Conversions
pub mod Asserts
pub mod StoreTests
pub mod Creates
pub mod Updates
pub mod Passing
pub mod ListSize
pub mod RequestTests
