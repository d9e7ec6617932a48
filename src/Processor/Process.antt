-- ===== src/Processor/Process.antt =====
-- `PatchedFunctions::new` of crates/lib/src/processor/functions.rs, `process` and `process_bytes` of
-- crates/lib/src/processor/mod.rs: the order of the passes. The arenas of walrus, its reader, its encoder and its
-- garbage collection are parameters.
pub mod Names
pub mod Kept
pub mod Fresh
pub mod NewIds
pub mod Keys
pub mod Unnamed
pub mod Surrogates
pub mod Types
use externref.Prelude.{
  ℕ, List, [], ◌∷◌, Option, none, some, Outcome, ok, err, fault, ◌>>=◌, map_err, Str, text,
}
use externref.Signature.Types.{Function, ReadResult}
use externref.Signature.Reader.{parse_section}
use externref.Wasm.{Code}
use externref.Patched.{patch_insert_fn, patch_get_fn, patch_drop_fn}
use externref.Processor.Ir.{FunctionId, ValType, i32, extern_ref}
use externref.Processor.Error.{Error, read, wasm}
use externref.Processor.Calls.{
  Item, not_function, Import, ImportArena, ExternrefImports, take_imports, PatchedFunctions,
  patched_functions,
}
use externref.Processor.Types.{FuncType}
use externref.Processor.Resolve.{Options, Export}
use externref.Processor.Module.{Funcs, replace_calls, process_functions}

abbrev pub Bytes : Type 0
Bytes = List ℕ

-- The parts of a `Module` of walrus that the processor works on. `rest` is a code for the others.
pub record Module : Type 0 where
  pub customs : List (Str × Bytes)
  pub imports : List Import
  pub exports : List Export
  pub funcs : Funcs
  pub next_local : ℕ
  pub rest : ℕ

-- The operations of walrus. A table's id is a number; an exported table is an item that is no function.
pub record Arenas : Type 0 where
  pub import_arena : ImportArena
  pub walrus : externref.Processor.Module.Walrus
  pub remove_raw : Str → List (Str × Bytes) → Option Bytes × List (Str × Bytes)
  pub add_table : Module → ℕ × Module
  pub add_export : Str → Item → List Export → List Export
  pub delete_func : FunctionId → Module → Module
  pub finish : FuncType → Code → Module → FunctionId × Module
  pub add_import_func : Str → Str → FuncType → Module → FunctionId × Module
  pub gc : Module → Module
  pub from_buffer : Bytes → Outcome Str Module
  pub emit_wasm : Module → Bytes

abbrev pub section_name : Str
section_name = text "__externrefs"

-- The types of the functions that are built.
abbrev pub insert_type : FuncType
insert_type = record { params = extern_ref ∷ []; results = i32 ∷ [] }

abbrev pub get_type : FuncType
get_type = record { params = i32 ∷ []; results = extern_ref ∷ [] }

abbrev pub drop_type : FuncType
drop_type = record { params = i32 ∷ []; results = [] }

abbrev pub hook_type : FuncType
hook_type = record { params = extern_ref ∷ []; results = [] }

-- What `parse_section` answers. It does not run out of fuel.
abbrev pub parsed : Option (ReadResult (List Function)) → Outcome Error (List Function)
parsed none = fault
parsed (some r) = map_err read r

module _ (arenas : Arenas) where
  abbrev pub export_table : Option Str → ℕ → Module → Module
  export_table none table_id m = m
  export_table (some name) table_id m = record m {
    exports = arenas.add_export name (not_function table_id) m.exports;
  }

  -- The function that takes an import's place; without the import nothing is built.
  unfoldable pub replace_import : Option FunctionId → FuncType → Code → Module → FunctionId × Module
  replace_import none ty code m = (0, m)
  replace_import (some f) ty code m = arenas.finish ty code (arenas.delete_func f m)

  unfoldable pub add_hook : Option (Str × Str) → Module → Option FunctionId × Module
  add_hook none m = (none, m)
  add_hook (some (module_name, name)) m =
      let added = arenas.add_import_func module_name name hook_type m in (some added.0, added.1)

  unfoldable pub replace_drop :
      Option FunctionId → Option (Str × Str) → Module → FunctionId × Module
  unfolding add_hook
  replace_drop none hook m = (0, m)
  replace_drop (some f) hook m =
      let hooked = add_hook hook (arenas.delete_func f m) in
      arenas.finish drop_type (patch_drop_fn hooked.0) hooked.1

  -- `PatchedFunctions::new`
  unfoldable pub patched_new : Options → ExternrefImports → Module → PatchedFunctions × Module
  unfolding replace_import replace_drop
  patched_new processor imports m =
      let tabled = arenas.add_table m in
      let exported = export_table processor.table_name tabled.0 tabled.1 in
      let inserted = replace_import imports.insert insert_type patch_insert_fn exported in
      let got = replace_import imports.get get_type patch_get_fn inserted.1 in
      let dropped = replace_drop imports.drop processor.drop_fn_name got.1 in
      (patched_functions imports inserted.0 got.0 dropped.0, dropped.1)

  -- `ProcessingState::new`
  unfoldable pub state_new : Options → Module → Outcome Error (PatchedFunctions × Module)
  state_new processor m = do
    (imports, rest) ← take_imports arenas.import_arena m.imports
    ok (patched_new processor imports (record m { imports = rest }))

  -- `replace_functions` and `process_functions` of the state.
  unfoldable pub run_state : List Function → PatchedFunctions × Module → Outcome Error Module
  run_state functions state = do
    replaced ← replace_calls state.0 state.1.funcs
    done ←
        process_functions arenas.walrus arenas.import_arena state.1.exports state.1.imports state.0
          functions replaced.2 state.1.next_local replaced.0
    ok (record state.1 { funcs = done.1; next_local = done.0 })

  -- The passes, behind the section's parsing, and without the garbage collection.
  abbrev pub run_passes : Options → List Function → Module → Outcome Error Module
  run_passes self functions m = state_new self m >>= run_state functions

  abbrev pub process_section : Options → Option Bytes → Module → Outcome Error Module
  process_section self none m = ok m
  process_section self (some raw_section) m = do
    functions ← parsed (parse_section raw_section)
    processed ← run_passes self functions m
    ok (arenas.gc processed)

  -- `Processor::process`: the module that it leaves where it ends without an error.
  unfoldable pub process : Options → Module → Outcome Error Module
  process self m =
      let removed = arenas.remove_raw section_name m.customs in
      process_section self removed.0 (record m { customs = removed.1 })

  -- `Processor::process_bytes`
  unfoldable pub process_bytes : Options → Bytes → Outcome Error Bytes
  process_bytes self bytes = do
    m ← map_err wasm (arenas.from_buffer bytes)
    processed ← process self m
    ok (arenas.emit_wasm processed)
