-- ===== src/Macro/Processed/Imports.antt =====
-- Imports: what stands in the foreign module after the change, processed.
use externref.Prelude.{
  ℕ, zero, suc, ◌+◌, ◌≡◌, refl, sym, ap, true, List, [], ◌∷◌, map, Option, none, some, length,
  get_elem?, Bool-cases, inl, inr, Outcome, ok, >>=-eq-ok, ok-inj, arith, Str, text,
}
use externref.Signature.Types.{BitSliceBuilder, import}
use externref.Signature.Bits.{build}
use externref.Signature.Bits.Indices.{marked}
use externref.Processor.Ir.{i32}
use externref.Processor.Types.{FuncType, patch_type_inner}
use externref.Macro.Syntax.{Segments, Expr, FnArg, receiver, typed, ForeignItemFn, SynError}
use externref.Macro.Kinds.{ResourceKind}
use externref.Macro.Function.{
  Function, attr_expr, from_sig, resource_args_from, arg_kind, needs_declaring, declare, evaluate,
}
use externref.Macro.Function.Marks.{is_resource_arg}
use externref.Macro.Wrappers.{Wrapper, wrap_import}
use externref.Macro.Wrappers.Types.{
  Lowering, wasm_type, Stands, Agree, Agree-suc, Agree-some, Agree-from,
}
use externref.Macro.Imports.{Import, foreign_inputs, renamed, change_fn}
use externref.Macro.Processed.{IsOneValue, IsProcessed, wasm_type-IsProcessed}

length-foreign_inputs :
    (cr : Segments) (args : List (ℕ × ResourceKind)) (i : ℕ) (inputs : List FnArg)
    → length (foreign_inputs cr args i inputs) ≡ length inputs
unfolding foreign_inputs
length-foreign_inputs cr args i [] = refl
length-foreign_inputs cr args i (receiver k ∷ inputs) =
    omega (arith, length-foreign_inputs cr args (i + 1) inputs)
length-foreign_inputs cr args i (typed pat ty ∷ inputs) =
    omega (arith, length-foreign_inputs cr args (i + 1) inputs)

module _ {cr : Segments} (lowering : Lowering cr) where
  foreign_inputs-i32 :
      (args : List (ℕ × ResourceKind)) (i : ℕ) (inputs : List FnArg) (j : ℕ)
      → Agree args i inputs
      → is_resource_arg inputs j ≡ true
      → get_elem? (map lowering.arg (foreign_inputs cr args i inputs)) j ≡ some i32
  unfolding foreign_inputs is_resource_arg arg_kind
  foreign_inputs-i32 args i [] j agree h = cc
  foreign_inputs-i32 args i (receiver k ∷ inputs) zero agree h = cc
  foreign_inputs-i32 args i (typed pat ty ∷ inputs) zero agree h =
      let (kind, e) = Agree-some args i (typed pat ty) inputs agree h in
      rw e (ap some (lowering.arg_extern_ref pat))
  foreign_inputs-i32 args i (receiver k ∷ inputs) (suc j) agree h =
      foreign_inputs-i32 args (i + 1) inputs j (Agree-suc args i (receiver k) inputs agree) h
  foreign_inputs-i32 args i (typed pat ty ∷ inputs) (suc j) agree h =
      foreign_inputs-i32 args (i + 1) inputs j (Agree-suc args i (typed pat ty) inputs agree) h

  renamed-Stands :
      (item : ForeignItemFn) (e : Option Expr) (ident : Str)
      → Stands lowering item.sig (renamed cr e (from_sig item.sig e cr) ident item).sig
  unfolding renamed from_sig
  renamed-Stands item e ident = record {
    len = length-foreign_inputs cr (resource_args_from 0 item.sig.inputs) 0 item.sig.inputs;
    refs = λ j h.
        foreign_inputs-i32 (resource_args_from 0 item.sig.inputs) 0 item.sig.inputs j
          (Agree-from item.sig.inputs) h;
    output = refl;
  }

change_fn-some :
    (cr : Segments) (item item' : ForeignItemFn) (f : Function) (w : Wrapper)
    → change_fn cr item ≡ ok (item', some (f, w))
    → (e : Option Expr) × (f ≡ from_sig item.sig e cr)
      × (needs_declaring (from_sig item.sig e cr) ≡ true)
      × (item'
          ≡ renamed cr e
              (from_sig item.sig e cr)
              (wrap_import (from_sig item.sig e cr) item.vis item.sig).1
              item)
unfolding change_fn
change_fn-some cr item item' f w h =
    let (e, read, made) = >>=-eq-ok (attr_expr item.attrs (text "link_name")) _ h in
    let f' = from_sig item.sig e cr in
    let wrapped = wrap_import f' item.vis item.sig in
    elim (Bool-cases (needs_declaring f')) [
      | inl yes_ ↦
          let made' : ◌≡◌ {A = Outcome SynError (ForeignItemFn × Option Import)}
              (ok (renamed cr e f' wrapped.1 item, some (f', wrapped.0)))
              (ok (item', some (f, w))) =
            rw yes_ at made in
          let same = ok-inj made' in
          (e, some_inj (ap (λ o. o.1) (sym same)), yes_, ap (λ o. o.0) (sym same))
      | inr no_ ↦
          let made' : ◌≡◌ {A = Outcome SynError (ForeignItemFn × Option Import)} (ok (item, none))
              (ok (item', some (f, w))) =
            rw no_ at made in
          absurd (none_some (ap (λ o. o.1) (ok-inj made')))
    ]
  where
    some_inj :
        {a b : Function} {v w : Wrapper}
        → ◌≡◌ {A = Option Import} (some (a, v)) (some (b, w))
        → a ≡ b
    some_inj q = cc

    none_some : {o : Import} → ◌≡◌ {A = Option Import} none (some o) → ⊥
    none_some q = cc

module _ (order : List ℕ → List ℕ)
    (keeps : (is : List ℕ) (j : ℕ) → marked (order is) j ≡ marked is j) {cr : Segments}
    (lowering : Lowering cr) where
  -- Let types be lowered as `Lowering` says, and let a map give its keys in any order. If the loop over a foreign
  -- module changes a function, and a written return type that is no resource has one value in WASM, then the
  -- declaration that is generated evaluates without a panic, and with it the processor patches the type of the
  -- changed import without an error: the slots whose types were resources become references, and no other slot
  -- changes.
  pub change_fn-IsProcessed :
      (item item' : ForeignItemFn) (f : Function) (w : Wrapper) (module_name label : Str)
      → change_fn cr item ≡ ok (item', some (f, w))
      → IsOneValue lowering item.sig.output
      → (t : BitSliceBuilder) × (ty' : FuncType) × (evaluate
            (declare order f (some module_name)).externrefs
          ≡ ok t)
        × (patch_type_inner
              (record { kind = import module_name; name = label; externrefs = build t })
              (wasm_type lowering item'.sig)
            ≡ ok ty')
        × IsProcessed item.sig (wasm_type lowering item'.sig) ty'
  unfolding declare
  change_fn-IsProcessed item item' f w module_name label h one =
      let (e, from, needs, changed) = change_fn-some cr item item' f w h in
      let after =
        renamed cr e (from_sig item.sig e cr)
          (wrap_import (from_sig item.sig e cr) item.vis item.sig).1 item in
      let (t, ty', value, done, processed) =
        wasm_type-IsProcessed order keeps lowering item.sig after.sig
          (renamed-Stands lowering item e
            (wrap_import (from_sig item.sig e cr) item.vis item.sig).1)
          e (import module_name) label needs one in
      (t, ty', rw from value, rw changed done, rw changed processed)
