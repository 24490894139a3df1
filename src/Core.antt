-- ===== src/Core.antt =====
-- crates/rupi-core/src: the contracts that the other crates share.
pub mod Bounded
pub mod Capability
pub mod Failure
pub mod Context
pub mod Message
pub mod Completion
