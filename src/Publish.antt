-- ===== src/Publish.antt =====
-- The package publish: HEP messages, and the outputs that carry them.
pub mod Hep
pub mod Output
pub mod File
pub mod Protobuf
