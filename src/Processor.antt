-- ===== src/Processor.antt =====
-- crates/lib/src/processor: what the processor does to a module.
pub mod Ir
pub mod Error
pub mod Guards
pub mod Calls
pub mod Resolve
pub mod Types
pub mod Locals
pub mod Cloner
pub mod Module
pub mod Process
