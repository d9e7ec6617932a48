-- ===== src/Macro/Processed/Exports.antt =====
-- Exports: what `for_export` writes, processed.
use externref.Prelude.{
  ℕ, ◌+◌, ◌≡◌, refl, true, false, List, none, some, ◌==◌, length, ok, err, Str, text,
}
use externref.Signature.Types.{BitSliceBuilder, export}
use externref.Signature.Bits.{build}
use externref.Signature.Bits.Indices.{marked}
use externref.Processor.Error.{unexpected_arity}
use externref.Processor.Types.{FuncType, fn_module, patch_type_inner}
use externref.Macro.Syntax.{Segments, ItemFn, returns, Ty}
use externref.Macro.Kinds.{from_type}
use externref.Macro
use externref.Macro.Function.{
  new, declare, Declaration, from_sig, needs_declaring, create_externrefs, evaluate, return_type_of,
  as_return,
}
use externref.Macro.Wrappers.Names.{new-attr_expr}
use externref.Macro.Wrappers.{Wrapper, wrap_export, remove_attr, un_export, for_export}
use externref.Macro.Wrappers.Types.{wrap_export-Stands}
use externref.Macro.Processed.{
  IsOneValue, IsProcessed, wasm_type-IsProcessed, wasm_type-unexpected_arity,
}
use externref.Macro.Wrappers.Types.{Lowering, wasm_type}

module _ (order : List ℕ → List ℕ)
    (keeps : (is : List ℕ) (j : ℕ) → marked (order is) j ≡ marked is j) {cr : Segments}
    (lowering : Lowering cr) where
  -- Let types be lowered as `Lowering` says, and let a map give its keys in any order. If `new` accepts an export
  -- that needs a declaration, and a written return type that is no resource has one value in WASM, then the
  -- declaration that is generated evaluates without a panic, and with it the processor patches the type of the
  -- generated wrapper without an error: the slots whose types are resources become references, and no other slot
  -- changes.
  pub for_export-IsProcessed :
      (function : ItemFn) (f : Macro.Function.Function) (label : Str)
      → new function cr ≡ ok f
      → needs_declaring f ≡ true
      → IsOneValue lowering function.sig.output
      → (bare : ItemFn) × (w : Wrapper) × (d : Declaration) × (t : BitSliceBuilder)
        × (ty' : FuncType) × (for_export order function cr
            ≡ ok (record { function = bare; export = some w; declaration = some d }))
        × (evaluate d.externrefs ≡ ok t)
        × (patch_type_inner
              (record { kind = export; name = label; externrefs = build t })
              (wasm_type lowering w.sig)
            ≡ ok ty')
        × IsProcessed function.sig (wasm_type lowering w.sig) ty'
  unfolding for_export declare
  for_export-IsProcessed function f label made needs one =
      let (e, _, from) = new-attr_expr function cr f made in
      let removed = remove_attr function.attrs (text "export_name") in
      let bare = un_export function removed.1 in
      let (t, ty', value, done, processed) =
        wasm_type-IsProcessed order keeps lowering function.sig _
          (wrap_export-Stands lowering function.sig e bare removed.0 refl refl) e export label
          (rw from at needs) one in
      (
        bare,
        wrap_export (from_sig function.sig e cr) bare removed.0,
        declare order (from_sig function.sig e cr) none,
        t,
        ty',
        rw (for_export, made, needs, from),
        value,
        done,
        processed,
      )

  -- Let types be lowered as `Lowering` says, and let a map give its keys in any order. If `new` accepts an export
  -- that needs a declaration, and its written return type is no resource and has any other number of values in
  -- WASM than one, as `()` has, then the declaration that is generated evaluates without a panic, but the
  -- processor refuses the type of the generated wrapper for its arity: it expects one value more than there are
  -- arguments.
  pub for_export-unexpected_arity :
      (function : ItemFn) (f : Macro.Function.Function) (label : Str) (ty : Ty)
      → new function cr ≡ ok f
      → needs_declaring f ≡ true
      → function.sig.output ≡ returns ty
      → from_type ty ≡ none
      → (length (lowering.result ty) == 1) ≡ false
      → (bare : ItemFn) × (w : Wrapper) × (d : Declaration) × (t : BitSliceBuilder) × (for_export
            order function cr
          ≡ ok (record { function = bare; export = some w; declaration = some d }))
        × (evaluate d.externrefs ≡ ok t)
        × (patch_type_inner
              (record { kind = export; name = label; externrefs = build t })
              (wasm_type lowering w.sig)
            ≡ err (
                unexpected_arity none label
                  (length function.sig.inputs + 1)
                  (length function.sig.inputs + length (lowering.result ty))))
  unfolding for_export declare fn_module
  for_export-unexpected_arity function f label ty made needs out none_ several =
      let (e, _, from) = new-attr_expr function cr f made in
      let removed = remove_attr function.attrs (text "export_name") in
      let bare = un_export function removed.1 in
      let (t, value, refused) =
        wasm_type-unexpected_arity order keeps lowering function.sig _
          (wrap_export-Stands lowering function.sig e bare removed.0 refl refl) e export label
          (rw from at needs) ty out none_ several in
      (
        bare,
        wrap_export (from_sig function.sig e cr) bare removed.0,
        declare order (from_sig function.sig e cr) none,
        t,
        rw (for_export, made, needs, from),
        value,
        refused,
      )
