-- ===== src/Macro.antt =====
-- crates/macro: the attribute that declares functions with resources and wraps them.
pub mod Syntax
pub mod Kinds
pub mod Function
pub mod Wrappers
pub mod Imports
pub mod Processed
pub mod Conversions
