-- ===== src/Processor/Process/NewIds.antt =====
-- The functions that `PatchedFunctions::new` builds are none of the imports that they replace.
use externref.Prelude.{
  ◌≡◌, refl, false, [], ◌∷◌, ◌++◌, Option, none, some, ◌==◌, ==→eq, Bool-cases, inl, inr, subst,
  Str, All, All-append,
}
use externref.Wasm.{Code}
use externref.Patched.{patch_insert_fn, patch_get_fn, patch_drop_fn}
use externref.Processor.Ir.{FunctionId}
use externref.Processor.Calls.{ExternrefImports, FnMapping, mapped, entry, patched_functions}
use externref.Processor.Calls.Replaced.{NewIds}
use externref.Processor.Types.{FuncType}
use externref.Processor.Resolve.{Options}
use externref.Processor.Process.{
  Module, Arenas, hook_type, insert_type, get_type, drop_type, export_table, replace_import,
  add_hook, replace_drop, patched_new,
}
use externref.Processor.Process.Fresh.{WalrusLaws, Old, Old-map, HasOld}

module _ (arenas : Arenas) (laws : WalrusLaws arenas) where
  abbrev Differs : Option FunctionId → FunctionId → Type 0
  Differs old id = Old (λ f. (f == id) ≡ false) old

  mapped-none :
      (m : FnMapping) (u : FunctionId) → All (λ q. (q.0 == u) ≡ false) m → mapped m u ≡ none
  unfolding mapped
  mapped-none [] u h = refl
  mapped-none ((k, v) ∷ m) u (one, h) = rw one (mapped-none m u h)

  entry-Differs :
      (o : Option FunctionId) (id u : FunctionId)
      → Differs o u
      → All (λ q. (q.0 == u) ≡ false) (entry o id)
  entry-Differs none id u h = tt
  entry-Differs (some f) id u h = (h, tt)

  -- A new function is none of the old ones.
  abbrev Apart : Module → FunctionId → Type 0
  Apart m id = (f : FunctionId) → laws.Issued m f → (f == id) ≡ false

  finish-Apart : (ty : FuncType) (code : Code) (m : Module) → Apart m (arenas.finish ty code m).0
  finish-Apart ty code m f issued = elim (Bool-cases (f == (arenas.finish ty code m).0)) [
    | inl same ↦ absurd (laws.finish_new ty code m (subst (laws.Issued m) (==→eq f _ same) issued))
    | inr no_ ↦ no_
  ]

  abbrev IfSome : Option FunctionId → Type 0 → Type 0
  IfSome none X = Unit
  IfSome (some f) X = X

  abbrev Keeps : Module → Module → Type 0
  Keeps m m' = (f : FunctionId) → laws.Issued m f → laws.Issued m' f

  replace_import-Apart :
      (o : Option FunctionId) (ty : FuncType) (code : Code) (m : Module)
      → IfSome o (Apart m (replace_import arenas o ty code m).0)
        × Keeps m (replace_import arenas o ty code m).1
  unfolding replace_import
  replace_import-Apart none ty code m = (tt, λ f h. h)
  replace_import-Apart (some g) ty code m = (
    λ f h. finish-Apart ty code (arenas.delete_func g m) f (laws.delete_keeps g m f h),
    λ f h. laws.finish_keeps ty code (arenas.delete_func g m) f (laws.delete_keeps g m f h),
  )

  add_hook-Keeps : (hook : Option (Str × Str)) (m : Module) → Keeps m (add_hook arenas hook m).1
  unfolding add_hook
  add_hook-Keeps none m f h = h
  add_hook-Keeps (some (s, name)) m f h = laws.import_keeps s name hook_type m f h

  replace_drop-Apart :
      (o : Option FunctionId) (hook : Option (Str × Str)) (m : Module)
      → IfSome o (Apart m (replace_drop arenas o hook m).0)
  unfolding replace_drop
  replace_drop-Apart none hook m = tt
  replace_drop-Apart (some g) hook m = λ f h.
      finish-Apart drop_type (patch_drop_fn (add_hook arenas hook (arenas.delete_func g m)).0)
        (add_hook arenas hook (arenas.delete_func g m)).1 f
        (add_hook-Keeps hook (arenas.delete_func g m) f (laws.delete_keeps g m f h))

  module _ (imports : ExternrefImports) (m : Module) (old : HasOld (laws.Issued m) imports) where
    Apart-mapped :
        (insert_id get_id drop_id u : FunctionId)
        → Apart m u
        → mapped (patched_functions imports insert_id get_id drop_id).fn_mapping u ≡ none
    unfolding patched_functions
    Apart-mapped insert_id get_id drop_id u apart =
        let (i, g, d) = old in
        mapped-none _ u (
          All-append _ (entry imports.drop drop_id)
            (entry imports.get get_id ++ entry imports.insert insert_id)
            (entry-Differs imports.drop drop_id u (Old-map _ _ imports.drop apart d))
            (All-append _ (entry imports.get get_id) (entry imports.insert insert_id)
              (entry-Differs imports.get get_id u (Old-map _ _ imports.get apart g))
              (entry-Differs imports.insert insert_id u (Old-map _ _ imports.insert apart i))))

    entry-IfSome :
        (P : FunctionId → Type 0) (o : Option FunctionId) (id : FunctionId)
        → IfSome o (P id)
        → All (λ p. P p.1) (entry o id)
    entry-IfSome P none id h = tt
    entry-IfSome P (some f) id h = (h, tt)

    IfSome-map : {X Y : Type 0} (o : Option FunctionId) → (X → Y) → IfSome o X → IfSome o Y
    IfSome-map none f h = tt
    IfSome-map (some g) f h = f h

    patched_functions-NewIds :
        (insert_id get_id drop_id : FunctionId)
        → IfSome imports.insert (Apart m insert_id)
        → IfSome imports.get (Apart m get_id)
        → IfSome imports.drop (Apart m drop_id)
        → NewIds (patched_functions imports insert_id get_id drop_id).fn_mapping
    unfolding patched_functions
    patched_functions-NewIds insert_id get_id drop_id i g d =
        let none_ = Apart-mapped insert_id get_id drop_id in
        All-append _ (entry imports.drop drop_id)
          (entry imports.get get_id ++ entry imports.insert insert_id)
          (entry-IfSome _ imports.drop drop_id (IfSome-map imports.drop (none_ drop_id) d))
          (All-append _ (entry imports.get get_id) (entry imports.insert insert_id)
            (entry-IfSome _ imports.get get_id (IfSome-map imports.get (none_ get_id) g))
            (entry-IfSome _ imports.insert insert_id
              (IfSome-map imports.insert (none_ insert_id) i)))

    pub patched_new-NewIds :
        (processor : Options) → NewIds (patched_new arenas processor imports m).0.fn_mapping
    unfolding patched_new
    patched_new-NewIds processor =
        let tabled = arenas.add_table m in
        let exported = export_table arenas processor.table_name tabled.0 tabled.1 in
        let inserted = replace_import arenas imports.insert insert_type patch_insert_fn exported in
        let got = replace_import arenas imports.get get_type patch_get_fn inserted.1 in
        let keep₁ : Keeps m exported = λ f h.
          laws.export_keeps tabled.1 processor.table_name tabled.0 f (laws.table_keeps m f h) in
        let (apart₁, keep₂) =
          replace_import-Apart imports.insert insert_type patch_insert_fn exported in
        let (apart₂, keep₃) = replace_import-Apart imports.get get_type patch_get_fn inserted.1 in
        let apart₃ = replace_drop-Apart imports.drop processor.drop_fn_name got.1 in
        patched_functions-NewIds inserted.0 got.0
          (replace_drop arenas imports.drop processor.drop_fn_name got.1).0
          (IfSome-map imports.insert (λ apart f h. apart f (keep₁ f h)) apart₁)
          (IfSome-map imports.get (λ apart f h. apart f (keep₂ f (keep₁ f h))) apart₂)
          (IfSome-map imports.drop (λ apart f h. apart f (keep₃ f (keep₂ f (keep₁ f h)))) apart₃)
