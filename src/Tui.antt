-- ===== src/Tui.antt =====
-- crates/rupi-tui/src: the terminal surface.
pub mod Width
pub mod Editor
