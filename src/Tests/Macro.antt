-- ===== src/Tests/Macro.antt =====
-- Examples of the macro: an export and an import with one resource argument.
use externref.Prelude.{
  ◌++◌, ◌<◌, ◌^◌, arith, ℕ, ◌≡◌, refl, true, false, List, [], ◌∷◌, map, none, some, length, ◌==◌,
  ok, err, Str, text, ◌+◌,
}
use externref.Signature.Types.{BitSliceBuilder, export, import}
use externref.Signature.Bits.{build, set_indices}
use externref.Signature.Bits.Indices.{marked, select}
use externref.Processor.Ir.{ValType, i32}
use externref.Processor.Error.{unexpected_arity}
use externref.Processor.Types.{FuncType, patch_type_inner}
use externref.Signature.Utf8.{utf8_error, utf8_error_from, lead}
use externref.Signature.Writer.{custom_section, custom_section_len}
use externref.Signature.Reader.{read_from_section}
use externref.Signature.Reader.Fields.{IsName}
use externref.Macro.Processed.Read.{declare-read_from_section}
use externref.Macro
use externref.Macro.Syntax.{
  Ty, path, reference, unit, other_ty, Segments, end, segment, no_arguments, angle_bracketed,
  type_argument, no_more, lit_str, Attribute, list, nested_value, other_pat, typed, Output,
  default_output, returns, visible, Signature, ItemFn, ForeignItemFn, fn_item, other_item,
  ItemForeignMod, is_ident, last_segment, word, name_value, Expr,
}
use externref.Macro.Kinds.{is_single, is_resource, from_simple_type, from_type}
use externref.Macro.Function.{
  check_abi, find_attr, attr_expr, arg_kind, resource_args_from, return_type_of, default,
  not_resource, new, from_sig, needs_declaring, Declaration, declare, create_externrefs, evaluate,
}
use externref.Macro.Function.Marks.{slots, is_resource_slot}
use externref.Macro.Wrappers.{
  kind_of, digits, export_inputs, import_inputs, Wrapper, wrap_export, wrap_import, remove_attr,
  without_attr, un_export, for_export,
}
use externref.Macro.Wrappers.Types.{Lowering, wasm_type}
use externref.Macro.Imports.{
  Import, find_module, module_name_of, renamed, change_fn, change_items, imports_new,
  ForeignExpansion, for_foreign_module,
}
use externref.Macro.Imports.Linked.{Transformed, for_foreign_module-Transformed}
use externref.Macro.Processed.{IsProcessed}
use externref.Macro.Processed.Exports.{for_export-IsProcessed, for_export-unexpected_arity}
use externref.Macro.Processed.Imports.{change_fn-IsProcessed}

abbrev pub cr : Segments
cr = segment (text "externref") no_arguments end

-- `&Resource<T>`
abbrev resource_ref : Ty
resource_ref =
    reference false
      (path (segment (text "Resource") (angle_bracketed (type_argument (other_ty 0) no_more)) end))

abbrev pub sig_with : Output → Signature
sig_with output = record {
  unsafety = false;
  abi = some (record { name = some (text "C") });
  ident = text "send";
  inputs = typed (other_pat 0) resource_ref ∷ (typed (other_pat 1) (other_ty 1) ∷ []);
  variadic = false;
  output = output;
}

abbrev pub function_with : Output → ItemFn
function_with output = record { attrs = []; vis = visible 0; sig = sig_with output; block = 0 }

abbrev parsed_with : Output → Macro.Function.Function
parsed_with output = from_sig (sig_with output) none cr

abbrev order : List ℕ → List ℕ
order is = is

keeps : (is : List ℕ) (j : ℕ) → marked (order is) j ≡ marked is j
keeps is j = refl

unfoldable lower : Ty → List ValType
lower unit = []
lower ty = i32 ∷ []

lower_extern_ref : lower (Macro.Wrappers.extern_ref_ty cr) ≡ i32 ∷ []
unfolding lower
lower_extern_ref = refl

abbrev lowering : Lowering cr
lowering = record {
  arg = λ a. i32;
  result = lower;
  arg_extern_ref = λ pat. refl;
  result_extern_ref = lower_extern_ref;
}

new_parsed : (output : Output) → new (function_with output) cr ≡ ok (parsed_with output)
unfolding new check_abi attr_expr find_attr
new_parsed output = refl

declares : (output : Output) → needs_declaring (parsed_with output) ≡ true
unfolding needs_declaring from_sig resource_args_from arg_kind from_type from_simple_type
    is_resource last_segment is_single
declares output = refl

send-IsName : IsName (text "send")
unfolding utf8_error utf8_error_from lead
send-IsName = record {
  fits = omega arith;
  is_utf8 = refl;
  bytes = (omega arith, (omega arith, (omega arith, (omega arith, tt))));
}

few_slots : slots (sig_with default_output) < 2 ^ 32
unfolding slots
few_slots = omega arith

declare-read_from_section_example :
    (t : BitSliceBuilder) × (section : List ℕ) × (evaluate
        (declare order (parsed_with default_output) none).externrefs
      ≡ ok t)
    × (custom_section
          (custom_section_len (record { kind = export; name = text "send"; externrefs = build t }))
          (record { kind = export; name = text "send"; externrefs = build t })
        ≡ ok section)
    × (read_from_section (section ++ (1 ∷ []))
        ≡ ok (record { kind = export; name = text "send"; externrefs = build t }, 1 ∷ []))
    × (set_indices (build t)
        ≡ ok (
            select
              (is_resource_slot (sig_with default_output))
              0
              (slots (sig_with default_output))))
declare-read_from_section_example =
    declare-read_from_section order keeps (sig_with default_output) none cr none (text "send")
      (1 ∷ []) (declares default_output) few_slots tt send-IsName

-- A function with both attributes that export it, and another.
abbrev other_name : Expr
other_name = lit_str (text "send_all")

abbrev exported : ItemFn
exported = record (function_with default_output) {
  attrs =
      record { ident = some (text "inline"); meta = word }
      ∷ (record { ident = some (text "export_name"); meta = name_value other_name }
          ∷ (record { ident = some (text "no_mangle"); meta = word } ∷ []));
}

abbrev parsed_exported : Macro.Function.Function
parsed_exported = from_sig (sig_with default_output) (some other_name) cr

for_export-IsProcessed_example :
    (bare : ItemFn) × (w : Wrapper) × (d : Declaration) × (t : BitSliceBuilder) × (ty' : FuncType)
    × (for_export order (function_with default_output) cr
        ≡ ok (record { function = bare; export = some w; declaration = some d }))
    × (evaluate d.externrefs ≡ ok t)
    × (patch_type_inner
          (record { kind = export; name = text "send"; externrefs = build t })
          (wasm_type lowering w.sig)
        ≡ ok ty')
    × IsProcessed (sig_with default_output) (wasm_type lowering w.sig) ty'
for_export-IsProcessed_example =
    for_export-IsProcessed order keeps lowering (function_with default_output)
      (parsed_with default_output) (text "send") (new_parsed default_output)
      (declares default_output) tt

unit_results : (length (lowering.result unit) == 1) ≡ false
unfolding lower
unit_results = refl

unit_kind : from_type unit ≡ none
unfolding from_type from_simple_type
unit_kind = refl

for_export-unexpected_arity_example :
    (bare : ItemFn) × (w : Wrapper) × (d : Declaration) × (t : BitSliceBuilder) × (for_export order
        (function_with (returns unit))
        cr
      ≡ ok (record { function = bare; export = some w; declaration = some d }))
    × (evaluate d.externrefs ≡ ok t)
    × (patch_type_inner
          (record { kind = export; name = text "send"; externrefs = build t })
          (wasm_type lowering w.sig)
        ≡ err (
            unexpected_arity none
              (text "send")
              (length (sig_with (returns unit)).inputs + 1)
              (length (sig_with (returns unit)).inputs + length (lowering.result unit))))
for_export-unexpected_arity_example =
    for_export-unexpected_arity order keeps lowering (function_with (returns unit))
      (parsed_with (returns unit)) (text "send") unit (new_parsed (returns unit))
      (declares (returns unit)) refl unit_kind unit_results

-- A foreign module with one function.
abbrev item : ForeignItemFn
item = record { attrs = []; vis = visible 1; sig = record (sig_with default_output) { abi = none } }

abbrev parsed_item : Macro.Function.Function
parsed_item = from_sig item.sig none cr

abbrev wrapped_item : Wrapper × Str
wrapped_item = wrap_import parsed_item item.vis item.sig

abbrev renamed_item : ForeignItemFn
renamed_item = renamed cr none parsed_item wrapped_item.1 item

changed_item : change_fn cr item ≡ ok (renamed_item, some (parsed_item, wrapped_item.0))
unfolding change_fn attr_expr find_attr needs_declaring from_sig resource_args_from arg_kind
    from_type from_simple_type is_resource last_segment is_single
changed_item = refl

change_fn-IsProcessed_example :
    (t : BitSliceBuilder) × (ty' : FuncType) × (evaluate
        (declare order parsed_item (some (text "test"))).externrefs
      ≡ ok t)
    × (patch_type_inner
          (record { kind = import (text "test"); name = text "send"; externrefs = build t })
          (wasm_type lowering renamed_item.sig)
        ≡ ok ty')
    × IsProcessed item.sig (wasm_type lowering renamed_item.sig) ty'
change_fn-IsProcessed_example =
    change_fn-IsProcessed order keeps lowering item renamed_item parsed_item wrapped_item.0
      (text "test") (text "send") changed_item tt

abbrev link_attr : Attribute
link_attr = record {
  ident = some (text "link");
  meta = list (ok (nested_value (some (text "wasm_import_module")) (lit_str (text "test")) ∷ []));
}

abbrev foreign_mod : ItemForeignMod
foreign_mod = record {
  attrs = link_attr ∷ [];
  abi = record { name = some (text "C") };
  items = fn_item item ∷ (other_item 0 ∷ []);
}

abbrev expanded : ForeignExpansion
expanded = record {
  foreign_mod = record foreign_mod { items = fn_item renamed_item ∷ (other_item 0 ∷ []) };
  declarations = declare order parsed_item (some (text "test")) ∷ [];
  wrappers = wrapped_item.0 ∷ [];
}

expands : for_foreign_module order foreign_mod cr ≡ ok expanded
unfolding for_foreign_module imports_new check_abi module_name_of find_module is_ident change_items
    change_fn attr_expr find_attr needs_declaring from_sig resource_args_from arg_kind from_type
    from_simple_type is_resource last_segment is_single
expands = refl

for_foreign_module-Transformed_example :
    (module_name : Str) × (functions : List Import) × (module_name_of foreign_mod.attrs
      ≡ ok module_name)
    × Transformed cr foreign_mod.items expanded.foreign_mod.items functions
    × (expanded.foreign_mod.attrs ≡ foreign_mod.attrs)
    × (expanded.declarations ≡ map (λ f. declare order f.0 (some module_name)) functions)
    × (expanded.wrappers ≡ map (λ f. f.1) functions)
for_foreign_module-Transformed_example =
    for_foreign_module-Transformed order foreign_mod cr expanded expands
