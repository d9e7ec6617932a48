-- ===== src/Macro/Processed.antt =====
-- From the macro to the processor: a declaration, evaluated, against the type of the generated function.
pub mod Exports
pub mod Imports
pub mod Read
use externref.Prelude.{
  ℕ, zero, suc, ◌+◌, ◌<◌, ◌≡◌, refl, sym, ap, ◌∙◌, Bool, true, false, ◌&&◌, ◌||◌, List, [], ◌∷◌,
  Option, none, some, ◌==◌, ==→eq, ne→==, if◌then◌else◌, length, Bool-cases, inl, inr, Outcome, ok,
  err, arith, Str, text, Option-cases, and_both,
}
use externref.Signature.Types.{BitSliceBuilder, Function, FunctionKind, export}
use externref.Signature.Bits.{build, set_indices}
use externref.Signature.Bits.Indices.{select, marked}
use externref.Processor.Ir.{ValType, i32, extern_ref}
use externref.Processor.Error.{Error, unexpected_arity}
use externref.Processor.Types.{FuncType, fn_module, placement, arity, patch_type_inner}
use externref.Processor.Types.Patch.{Patched}
use externref.Processor.Types.Accepts.{marked-select, patch_type_inner-select}
use externref.Macro.Syntax.{
  Segments, Expr, Signature, ItemFn, Attribute, Output, default_output, returns, Ty,
}
use externref.Macro.Kinds.{ResourceKind, from_type}
use externref.Macro
use externref.Macro.Function.{
  new, declare, Declaration, from_sig, needs_declaring, create_externrefs, evaluate, return_type_of,
  as_return,
}
use externref.Macro.Wrappers.Names.{new-attr_expr}
use externref.Macro.Function.Slots.{create_externrefs-is_resource_slot}
use externref.Macro.Function.Marks.{
  is_some, slots, written, is_resource_slot, is_resource_arg, is_resource_output,
}
use externref.Macro.Wrappers.{
  Wrapper, Export, export_output, wrap_export, remove_attr, un_export, for_export,
}
use externref.Macro.Wrappers.Types.{Stands, wrap_export-Stands, wasm_type-results, wasm_type-i32}
use externref.Macro.Wrappers.Types.{Lowering, results_of, wasm_type, is_resource_arg-lt, params_len}

-- A return type that is written, and is no resource, has one value.
abbrev pub IsOneValue : {cr : Segments} → Lowering cr → Output → Type 0
IsOneValue lowering default_output = Unit
IsOneValue lowering (returns ty) = from_type ty ≡ none → length (lowering.result ty) ≡ 1

lt_zero_add : (a b : ℕ) → a < b → a < 0 + b
lt_zero_add a b h = omega arith

eq-lt : (a b w : ℕ) → a ≡ b → w ≡ 1 → b < a + w
eq-lt a b w h e = omega arith

slot-lt : (sig : Signature) (j : ℕ) → is_resource_slot sig j ≡ true → j < slots sig
unfolding is_resource_slot slots is_resource_output
slot-lt sig j h = elim (Bool-cases (is_resource_arg sig.inputs j)) [
  | inl yes_ ↦ omega (arith, is_resource_arg-lt sig.inputs j yes_)
  | inr no_ ↦
      let (out, at) =
        and_both (is_resource_output sig.output) (length sig.inputs == j) (rw no_ at h) in
      eq-lt (length sig.inputs) j (written sig.output) (==→eq _ _ at) (one sig.output out)
]
  where
    one : (out : Output) → is_resource_output out ≡ true → written out ≡ 1
    one default_output e = cc
    one (returns ty) e = refl

module _ {cr : Segments} (lowering : Lowering cr) where
  results-written :
      (out : Output)
      → IsOneValue lowering out
      → length (results_of lowering (export_output cr (return_type_of out) out)) ≡ written out
  unfolding return_type_of
  results-written default_output one = refl
  results-written (returns ty) one = elim (Option-cases (from_type ty)) [
    | inl none_ ↦ rw none_ (one none_)
    | inr (kind, some_) ↦ rw some_ (ap length lowering.result_extern_ref)
  ]

  module _ (sig generated : Signature) (stands : Stands lowering sig generated) where
    wasm_type-arity :
        IsOneValue lowering sig.output → arity (wasm_type lowering generated) ≡ slots sig
    unfolding arity slots
    wasm_type-arity one = omega (
      arith,
      params_len lowering sig generated stands,
      ap length (wasm_type-results lowering sig generated stands),
      results-written sig.output one,
    )

    arity-returns :
        (ty : Ty)
        → sig.output ≡ returns ty
        → from_type ty ≡ none
        → arity (wasm_type lowering generated) ≡ length sig.inputs + length (lowering.result ty)
    unfolding arity return_type_of
    arity-returns ty out none_ =
        let shown : (wasm_type lowering generated).results
            ≡ results_of lowering (export_output cr (as_return (from_type ty)) (returns ty)) =
          wasm_type-results lowering sig generated stands
          ∙ ap (λ o. results_of lowering (export_output cr (return_type_of o) o)) out in
        let plain : results_of lowering (export_output cr (as_return (from_type ty)) (returns ty))
            ≡ lowering.result ty =
          rw none_ in
        omega (arith, params_len lowering sig generated stands, ap length (shown ∙ plain))

add_ne : (n r : ℕ) → (r == 1) ≡ false → (n + r == n + 1) ≡ false
add_ne n r h = ground arith

slots-returns :
    (sig : Signature) (ty : Ty) → sig.output ≡ returns ty → slots sig ≡ length sig.inputs + 1
unfolding slots
slots-returns sig ty out = ap (λ o. length sig.inputs + written o) out

-- What the processor makes of the wrapper's type: the resource slots are references, the others are as they were.
pub record IsProcessed (sig : Signature) (ty ty' : FuncType) : Type 0 where
  pub slots :
      (j : ℕ)
      → placement ty' j ≡ (if is_resource_slot sig j then some extern_ref else placement ty j)
  pub params_len : length ty'.params ≡ length ty.params
  pub results_len : length ty'.results ≡ length ty.results

module _ (order : List ℕ → List ℕ)
    (keeps : (is : List ℕ) (j : ℕ) → marked (order is) j ≡ marked is j) {cr : Segments}
    (lowering : Lowering cr) where
  module _ (sig generated : Signature) (stands : Stands lowering sig generated) (name : Option Expr)
      (kind : FunctionKind) (label : Str) (h : needs_declaring (from_sig sig name cr) ≡ true) where
    pub wasm_type-IsProcessed :
        IsOneValue lowering sig.output
        → (t : BitSliceBuilder) × (ty' : FuncType) × (evaluate
              (create_externrefs order (from_sig sig name cr))
            ≡ ok t)
          × (patch_type_inner
                (record { kind = kind; name = label; externrefs = build t })
                (wasm_type lowering generated)
              ≡ ok ty')
          × IsProcessed sig (wasm_type lowering generated) ty'
    unfolding build
    wasm_type-IsProcessed one =
        let (t, made, _, len, shown) =
          create_externrefs-is_resource_slot order keeps sig name cr h in
        let ty = wasm_type lowering generated in
        let a : arity ty ≡ slots sig = wasm_type-arity lowering sig generated stands one in
        let (ty', done, patched) =
          patch_type_inner-select (record { kind = kind; name = label; externrefs = build t })
            (is_resource_slot sig) ty (a ∙ sym len) (rw a shown)
            (wasm_type-i32 lowering sig generated stands) in
        (
          t,
          ty',
          made,
          done,
          record {
            slots = λ j.
                patched.slots j
                ∙ ap (λ (b : Bool). if b then some extern_ref else placement ty j)
                    (marked-select (is_resource_slot sig) 0 (arity ty) j (omega arith)
                      (λ e. lt_zero_add j (arity ty) (rw a (slot-lt sig j e))));
            params_len = patched.params_len;
            results_len = patched.results_len;
          },
        )

    pub wasm_type-unexpected_arity :
        (ty : Ty)
        → sig.output ≡ returns ty
        → from_type ty ≡ none
        → (length (lowering.result ty) == 1) ≡ false
        → (t : BitSliceBuilder) × (evaluate (create_externrefs order (from_sig sig name cr)) ≡ ok t)
          × (patch_type_inner
                (record { kind = kind; name = label; externrefs = build t })
                (wasm_type lowering generated)
              ≡ err (
                  unexpected_arity
                    (fn_module kind)
                    label
                    (length sig.inputs + 1)
                    (length sig.inputs + length (lowering.result ty))))
    unfolding build patch_type_inner
    wasm_type-unexpected_arity ty out none_ several =
        let (t, made, _, len, _) = create_externrefs-is_resource_slot order keeps sig name cr h in
        let bits : t.bit_len ≡ length sig.inputs + 1 = len ∙ slots-returns sig ty out in
        let real : arity (wasm_type lowering generated)
            ≡ length sig.inputs + length (lowering.result ty) =
          arity-returns lowering sig generated stands ty out none_ in
        (t, made, rw (patch_type_inner, bits, real, add_ne (length sig.inputs) _ several))
