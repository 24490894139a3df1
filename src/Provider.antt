-- ===== src/Provider.antt =====
-- crates/rupi-provider/src: the responses of a model provider.
pub mod Decode
pub mod Sse
