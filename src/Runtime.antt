-- ===== src/Runtime.antt =====
-- crates/rupi-runtime/src: the agent loop.
pub mod Failover
pub mod Turn
pub mod History
