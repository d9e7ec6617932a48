-- ===== src/Processor/Resolve.antt =====
-- `ProcessingState::function_id` of crates/lib/src/processor/state.rs, and the options of
-- crates/lib/src/processor/mod.rs: which function of the module a declaration is about.
use externref.Prelude.{
  str_eq, List, [], ◌∷◌, Option, none, some, if◌then◌else◌, Outcome, ok, err, Str, text,
}
use externref.Signature.Types.{export, import, Function}
use externref.Processor.Ir.{FunctionId}
use externref.Processor.Error.{Error, no_export, unexpected_export_type, unexpected_import_type}
use externref.Processor.Calls.{Item, function, not_function, Import, ImportArena}

-- `Processor`: the name of the exported table, the module and the name of the hook.
pub record Options : Type 0 where
  pub table_name : Option Str
  pub drop_fn_name : Option (Str × Str)

abbrev pub default_options : Options
default_options = record { table_name = some (text "externrefs"); drop_fn_name = none }

unfoldable pub set_ref_table : Options → Option Str → Options
set_ref_table self name = record self { table_name = name }

unfoldable pub set_drop_fn : Options → Str → Str → Options
set_drop_fn self module_name name = record self { drop_fn_name = some (module_name, name) }

-- An export: its item is a function, or a thing of another type.
pub record Export : Type 0 where
  pub name : Str
  pub item : Item

unfoldable pub find_export : Str → List Export → Option Export
find_export name [] = none
find_export name (e ∷ exports) = if str_eq e.name name then some e else find_export name exports

abbrev pub exported : Str → Option Export → Outcome Error (Option FunctionId)
exported name none = err (no_export name)
exported name (some e) = elim e.item [
  | function f ↦ ok (some f)
  | not_function k ↦ err (unexpected_export_type name)
]

abbrev pub imported : Str → Str → Option Import → Outcome Error (Option FunctionId)
imported module_name name none = ok none
imported module_name name (some i) = elim i.item [
  | function f ↦ ok (some f)
  | not_function k ↦ err (unexpected_import_type module_name name)
]

-- `function_id`
unfoldable pub function_id :
    ImportArena → List Export → List Import → Function → Outcome Error (Option FunctionId)
function_id arena exports imports f = elim f.kind [
  | export ↦ exported f.name (find_export f.name exports)
  | import module_name ↦ imported module_name f.name (arena.find module_name f.name imports)
]
