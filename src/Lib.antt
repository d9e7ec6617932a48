-- ===== src/Lib.antt =====
-- A verification library for externref, which lets WASM modules written in Rust hold references to host objects. A
-- macro (crates/macro) marks the functions of a module that take or return references; each mark is a signature in
-- a custom section (crates/lib/src/signature.rs). A processor (crates/lib/src/processor) reads the section from
-- the compiled module, puts functions of its own in the place of the surrogate imports that the code of
-- crates/lib/src/lib.rs calls, and changes the types of functions and locals from `i32` to `externref`. At run
-- time the references live in a table, and a `Resource` is an index into it.
--
-- How the parts are modelled:
--
-- Signature (signature.rs, error.rs, `Processor::parse_section` of processor/mod.rs). Types has the data, Bits the
-- bit slice and its builder, Writer `Function::custom_section`, Reader `Function::read_from_section` and the
-- parsing loop, Utf8 the check of `str::from_utf8`. Slices are lists of numbers below 256. A buffer of `&mut
-- &[u8]` is passed in and handed back. A panic is the value `fault` of `Outcome`. A signature is within the limits
-- if its lengths fit 32 bits, its names are UTF-8, its bits have the bytes that they need, and its module's name
-- is not as long as the mark of an export.
--
-- Wasm: the instructions that the generated functions are made of, as trees, with an interpreter: a stack, locals,
-- the table of references, and the calls that were made. Whether the table may grow is a parameter. A block, a
-- loop and a conditional have the block types of the source, which the rules of validation in Typing read. Steps
-- and Safety say how a run of code that validates may end.
--
-- Patched (`patch_insert_fn`, `patch_get_fn`, `patch_drop_fn` of processor/functions.rs): the generated code as
-- instruction trees. Loop, Insert and Access run it, Slots says which element it takes, Effects and Runs what it
-- does to the table. Typed has its types.
--
-- Resource (`Resource` of lib.rs, on wasm32): its functions over an interface of the three imports.
-- Resource/Patched fills the interface with the generated functions. Laws has each operation, Lifetime one
-- resource from `new` to its drop, Steps, Removal and Ownership any sequence of operations.
--
-- Processor: Ir the instructions that the passes tell apart, Error the errors and their texts (processor/error.rs,
-- error.rs), Guards `GuardRemover` and `remove_guards`, Calls `ExternrefImports`, `PatchedFunctions::new` and
-- `FunctionsReplacer` (processor/functions.rs), Types `patch_type_inner`, Locals `RefCallDetector`,
-- `LocalReplacementCounter`, `LocalReplacer` and `transform_local_fn`, Cloner `FunctionCloner`, Resolve
-- `function_id` (processor/state.rs) and the options of processor/mod.rs, Module `replace_calls`,
-- `transform_import`, `transform_export` and `process_functions`. Bodies are the lists of their sequences in the
-- order of the traversals of walrus; the traversals and the ids that walrus gives are parameters. Module/Types
-- follows the types of the functions.
--
-- Processor/Process: `PatchedFunctions::new`, `process` and `process_bytes` (processor/mod.rs), over the
-- operations of walrus, which are parameters. What is relied on in them is the record `WalrusLaws` of Fresh: ids
-- are not given twice, an import that is taken out leaves the others, garbage collection adds no instruction.
-- Names says which functions an instruction names, Kept that the later passes add no names, NewIds that the
-- functions that are built are new, Keys, Unnamed and Surrogates what is left of the surrogates. Types has the
-- types of the functions, where garbage collection is taken to keep a function as it is or to remove it
-- (`GcKeeps`).
--
-- Macro (crates/macro/src/externref.rs, lib.rs): Syntax has the syntax trees of syn as data, with a code for what
-- the macro does not look at. Kinds has `SimpleResourceKind` and `ResourceKind`, Function `Function` and its
-- declaration, Wrappers `wrap_export`, `wrap_import` and `for_export` (Attributes has the attributes that it takes
-- off), Imports `Imports`, `for_foreign_module` and
-- the attribute's entry. The order in which a map gives its keys is a parameter. Processed follows a declaration
-- to the reader and to the processor: the types that the compiler gives to arguments and results are the record
-- `Lowering`, in which each argument has one value and `ExternRef` is an `i32`.
--
-- Macro/Conversions: what the expressions in a wrapper do, over the operations of Resource. An expression gives a
-- value and the temporaries that the statement drops at its end. Types has the types of the expressions, Made what
-- a conversion for an export makes, Released and Calls the elements of the table that a wrapper frees, Arrived and
-- Called what an export is called with, Passed what an import is called with. A panic, a trap and code that does
-- not compile all end a run without a result there.
--
-- E2e (e2e-tests/src/lib.rs): the exports that the end-to-end tests compile to WASM, over the operations of
-- Resource. The host's functions are the record `Host`: they read the table and answer. Owned says who owns the
-- elements of the table, Ends and Nulls run the exports.
--
-- Cli (crates/cli/src/main.rs): `ModuleAndName::from_str` and `run`. The files and streams are the record `Host`,
-- and a run lists what it does to them.
--
-- Fuel: the parsing loop gets as many rounds as the section has bytes, and each signature takes at least twelve. A
-- loop of WASM gets a number of rounds; the search for a free element takes as many rounds as the table has
-- elements at most. A table has fewer than 2^32 elements.
--
-- Not modelled: the arenas and the encoder of walrus and its garbage collection, the parser of syn, the parsing of
-- options by clap, logging, spans, and what runs the end-to-end tests. `process` returns the module that it
-- leaves; where it ends with an error the module it was working on is not given. In the texts of errors the
-- formats of numbers and of other errors are parameters; the texts of the macro's and the command's errors are
-- left out.
pub mod Prelude
pub mod Signature
pub mod Wasm
pub mod Patched
pub mod Resource
pub mod Processor
mod Tests
pub mod Macro
pub mod Cli
pub mod E2e
