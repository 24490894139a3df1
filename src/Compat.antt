-- ===== src/Compat.antt =====
-- crates/rupi-compat/src: what other agents' files mean here.
pub mod Substitute
