-- ===== src/Store.antt =====
-- crates/rupi-store: what the store decides.
pub mod Retention
