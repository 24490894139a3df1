-- ===== src/Tools.antt =====
-- crates/rupi-tools/src: the built-in tools and the boundary that their output passes.
pub mod Reduce
