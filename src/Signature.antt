-- ===== src/Signature.antt =====
-- crates/lib/src/signature.rs and crates/lib/src/error.rs: the records that the macro writes to
-- the custom section of a WASM module and that the processor reads back.
pub mod Types
pub mod Bits
pub mod Utf8
pub mod Writer
pub mod Reader
