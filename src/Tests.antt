-- ===== src/Tests.antt =====
-- Tests and examples on concrete inputs.
mod Signature
mod Patched
mod Resource
mod Processor
mod Module
mod Cli
mod Macro
mod Process
mod Types
mod Conversions
mod E2e
