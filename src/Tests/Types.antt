-- ===== src/Tests/Types.antt =====
-- Examples of the types that `process_functions` leaves.
use externref.Prelude.{some, ◌≡◌, refl, [], ◌∷◌, ◌++◌, ok, text}
use externref.Signature.Types.{Function, import}
use externref.Signature.Bits.{set_indices, set_indices_from, is_set, test_bit}
use externref.Processor.Ir.{i32, extern_ref}
use externref.Processor.Types.{
  patch_type_inner, patch_slots, patch_slot, placement, place, is_i32, arity,
}
use externref.Processor.Calls.{PatchedFunctions}
use externref.Processor.Resolve.{function_id}
use externref.Processor.Locals.{contains, returns_ref, detect_instr, detect_instrs, detect_body}
use externref.Processor.Locals.Transform.{transform_local_fn}
use externref.Processor.Module.{
  Func, replace_in, replace_calls, imported_fn, local_fn, func, set_func, transform_import,
  last_is_set, returns_last, transform_if_import, process_imports, declared_for, transform_fn,
  transform_fns, function_ids, process_functions,
}
use externref.Processor.Module.Types.{Declarations, Retyped}
use externref.Tests.Process.{arenas, int, caller, before_, after_, insert_fn}
use externref.Signature.Reader.{
  parse_section, parse_section_loop, read_from_section, read_kind, read_str, read_u32, str_body,
  from_utf8, read_bits, bits_body,
}
use externref.Signature.Utf8.{utf8_error, utf8_error_from, lead}
use externref.Processor.Process.{
  Bytes, Module, section_name, parsed, state_new, run_state, process, patched_new, replace_import,
  replace_drop, add_hook,
}
use externref.Processor.Process.Types.{process-Retyped}
use externref.Processor.Calls.{
  take_import, take_imports, mapped, patched_functions, visit_function_id, visit_instr,
  replace_instrs, replace_body,
}
use externref.Processor.Resolve.{default_options}

-- `function` of the module `test` takes a reference.
abbrev declared : Function
declared = record {
  kind = import (text "test");
  name = text "function";
  externrefs = record { bytes = 1 ∷ []; bit_len = 2 };
}

-- Its section.
abbrev raw : Bytes
raw =
    4 ∷ 0 ∷ 0 ∷ 0 ∷ (text "test" ++ (8 ∷ 0 ∷ 0 ∷ 0 ∷ (text "function" ++ (2 ∷ 0 ∷ 0 ∷ 0 ∷ 1 ∷ []))))

read_section : parsed (parse_section raw) ≡ ok (declared ∷ [])
unfolding parse_section parse_section_loop read_from_section read_kind read_str read_u32 str_body
    from_utf8 utf8_error utf8_error_from lead read_bits bits_body
read_section = refl

-- A module that also imports `insert`.
abbrev with_section : Module
with_section = record before_ { customs = (section_name, raw) ∷ [] }

abbrev new_function : Func
new_function = imported_fn (record { params = extern_ref ∷ []; results = i32 ∷ [] })

abbrev processed : Module
processed = record after_ {
  funcs =
      (0, imported_fn int)
      ∷ ((1, new_function) ∷ ((2, local_fn (caller 3)) ∷ ((3, local_fn insert_fn) ∷ [])));
}

retyped : process arenas default_options with_section ≡ ok processed
unfolding parse_section parse_section_loop read_from_section read_kind read_str read_u32 str_body
    from_utf8 utf8_error utf8_error_from lead read_bits bits_body process state_new run_state
    take_imports take_import patched_new replace_import replace_drop add_hook patched_functions
    replace_calls replace_in replace_body replace_instrs visit_instr visit_function_id mapped
    process_functions function_ids function_id process_imports returns_last last_is_set is_set
    test_bit transform_if_import transform_import func set_func patch_type_inner patch_slots
    patch_slot placement place is_i32 arity set_indices set_indices_from declared_for transform_fn
    transform_fns transform_local_fn contains returns_ref detect_instr detect_instrs detect_body
retyped = refl

function_left : func processed.funcs 1 ≡ some new_function
unfolding func
function_left = refl

process-Retyped_example :
    (state : PatchedFunctions × Module) × (state_new arenas default_options
        (record with_section { customs = [] })
      ≡ ok state)
    × ((ds : Declarations) × (function_ids arenas.walrus arenas.import_arena state.1.exports
            state.1.imports
            (declared ∷ [])
          ≡ ok ds)
        × Retyped ds 1 (func state.1.funcs 1) (some new_function))
process-Retyped_example =
    process-Retyped arenas (λ m f k h. h) default_options with_section processed raw (declared ∷ [])
      1 new_function refl read_section retyped function_left
