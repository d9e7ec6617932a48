-- ===== src/Processor/Process/Surrogates.antt =====
-- No surrogate is left in a module that was processed.
use externref.Prelude.{
  subst, ◌≡◌, refl, sym, ap, ap₂, ◌∙◌, Bool, false, ◌||◌, List, [], ◌∷◌, Option, none, some, inl,
  inr, ◌⊎◌, ok, >>=-eq-ok, ok-inj, All,
}
use mathlib.Core.Path.{fun_ext}
use externref.Signature.Types.{Function}
use externref.Signature.Reader.{parse_section}
use externref.Processor.Ir.{FunctionId}
use externref.Processor.Calls.{
  PatchedFunctions, Item, function, not_function, Import, take_imports, ExternrefImports,
  patched_functions,
}
use externref.Processor.Calls.Replaced.{is_key}
use externref.Processor.Resolve.{Options}
use externref.Processor.Module.{replace_calls, process_functions}
use externref.Processor.Module.Replaced.{replace_calls-old}
use externref.Processor.Process.{
  Bytes, Module, Arenas, section_name, parsed, patched_new, state_new, run_state, run_passes,
  process_section, process,
}
use externref.Processor.Process.Kept.{funcs_names, funcs_names-process_functions}
use externref.Processor.Process.Fresh.{
  ItemIssued, WalrusLaws, HasOld, HasOld-map, take_imports-HasOld,
}
use externref.Processor.Process.NewIds.{patched_new-NewIds}
use externref.Processor.Process.Keys.{is_import, is_replaced, is_surrogate, is_key-is_replaced}
use externref.Processor.Process.Unnamed.{old_or_guard, funcs_names-none}

-- The functions whose names are gone, by the imports.
patched_new-is_key :
    (arenas : Arenas) (self : Options) (imports : ExternrefImports) (m : Module)
    → is_key (patched_new arenas self imports m).0.fn_mapping ≡ is_replaced imports
unfolding patched_new
patched_new-is_key arenas self imports m = fun_ext λ f. is_key-is_replaced imports _ _ _ f

patched_new-old_or_guard :
    (arenas : Arenas) (self : Options) (imports : ExternrefImports) (m : Module)
    → old_or_guard
        (patched_new arenas self imports m).0.fn_mapping
        (patched_new arenas self imports m).0.guard_id
      ≡ is_surrogate imports
unfolding patched_new patched_functions
patched_new-old_or_guard arenas self imports m =
    fun_ext
      λ f. ap (λ (b : Bool). b || is_import imports.guard f) (is_key-is_replaced imports _ _ _ f)

item-issued :
    (P Q : FunctionId → Type 0) (item : Item)
    → ((f : FunctionId) → P f → Q f)
    → ItemIssued P item
    → ItemIssued Q item
item-issued P Q (function f) h p = h f p
item-issued P Q (not_function k) h p = tt

All-issued :
    (P Q : FunctionId → Type 0) (is : List Import)
    → ((f : FunctionId) → P f → Q f)
    → All (λ i. ItemIssued P i.item) is
    → All (λ i. ItemIssued Q i.item) is
All-issued P Q [] h all = tt
All-issued P Q (i ∷ is) h (p, all) = (item-issued P Q i.item h p, All-issued P Q is h all)

module _ (arenas : Arenas) (laws : WalrusLaws arenas) where
  run_passes-names :
      (self : Options) (functions : List Function) (m m' : Module)
      → All (λ i. ItemIssued (laws.Issued m) i.item) m.imports
      → run_passes arenas self functions m ≡ ok m'
      → (taken : ExternrefImports × List Import) × (take_imports arenas.import_arena m.imports
          ≡ ok taken)
        × (funcs_names (is_surrogate taken.0) (is_replaced taken.0) m'.funcs ≡ false)
  unfolding state_new run_state
  run_passes-names self functions m m' all h =
      let (state, new_, from) =
        >>=-eq-ok (state_new arenas self m) (run_state arenas functions) h in
      let (taken, found, made_) = >>=-eq-ok (take_imports arenas.import_arena m.imports) _ new_ in
      let m₁ : Module = record m { imports = taken.1 } in
      let patched = patched_new arenas self taken.0 m₁ in
      let h₁ : run_state arenas functions patched ≡ ok m' =
        subst (λ (st : PatchedFunctions × Module). run_state arenas functions st ≡ ok m')
          (sym (ok-inj made_)) from in
      let (replaced, done₁, h₂) = >>=-eq-ok (replace_calls patched.0 patched.1.funcs) _ h₁ in
      let (out, done₂, made) =
        >>=-eq-ok (process_functions _ _ _ _ _ functions _ _ replaced.0) _ h₂ in
      let old : HasOld (laws.Issued m₁) taken.0 =
        HasOld-map (laws.Issued m) (laws.Issued m₁) taken.0 (laws.parts_keep m m.customs taken.1)
          (take_imports-HasOld arenas laws (laws.Issued m) m.imports taken all found) in
      let new = patched_new-NewIds arenas laws taken.0 m₁ old self in
      let (_, gone, unguarded) =
        replace_calls-old patched.0 patched.1.funcs replaced.0 replaced.1 replaced.2 new done₁ in
      let none_ =
        funcs_names-none patched.0.fn_mapping patched.0.guard_id replaced.0 gone unguarded in
      let kept =
        funcs_names-process_functions _ _ arenas.walrus _ _ _ _ functions _ _ replaced.0 out none_
          done₂ in
      (
        taken,
        found,
        ap (λ (o : Module). funcs_names (is_surrogate taken.0) (is_replaced taken.0) o.funcs)
              (sym (ok-inj made))
            ∙ sym (
                ap₂ (λ (a b : FunctionId → Bool). funcs_names a b out.1)
                  (patched_new-old_or_guard arenas self taken.0 m₁)
                  (patched_new-is_key arenas self taken.0 m₁))
            ∙ kept,
      )

  -- Let walrus keep `WalrusLaws`. If the functions that a module imports have ids that walrus gave, and `process`
  -- ends without an error, then the module had no section with declarations and only the section was looked for;
  -- or its surrogates were taken from its imports, no call in the functions that are left names one of them, the
  -- guard included, and no `ref.func` names a replaced one.
  pub process-is_surrogate :
      (self : Options) (m m' : Module)
      → All (λ i. ItemIssued (laws.Issued m) i.item) m.imports
      → process arenas self m ≡ ok m'
      → (((arenas.remove_raw section_name m.customs).0 ≡ none)
          × (m' ≡ record m { customs = (arenas.remove_raw section_name m.customs).1 }))
        ⊎ ((taken : ExternrefImports × List Import) × (take_imports arenas.import_arena m.imports
              ≡ ok taken)
            × (funcs_names (is_surrogate taken.0) (is_replaced taken.0) m'.funcs ≡ false))
  unfolding process
  process-is_surrogate self m m' all h =
      of_section (arenas.remove_raw section_name m.customs).0 refl h
    where
      of_section :
          (o : Option Bytes)
          → (arenas.remove_raw section_name m.customs).0 ≡ o
          → process_section arenas self o
              (record m { customs = (arenas.remove_raw section_name m.customs).1 })
            ≡ ok m'
          → (((arenas.remove_raw section_name m.customs).0 ≡ none)
              × (m' ≡ record m { customs = (arenas.remove_raw section_name m.customs).1 }))
            ⊎ ((taken : ExternrefImports × List Import) × (take_imports arenas.import_arena
                    m.imports
                  ≡ ok taken)
                × (funcs_names (is_surrogate taken.0) (is_replaced taken.0) m'.funcs ≡ false))
      of_section none e q = inl (e, sym (ok-inj q))
      of_section (some raw_section) e q =
          let m₀ : Module = record m { customs = (arenas.remove_raw section_name m.customs).1 } in
          let (functions, _, h₁) = >>=-eq-ok (parsed (parse_section raw_section)) _ q in
          let (processed, ran, made) = >>=-eq-ok (run_passes arenas self functions m₀) _ h₁ in
          let (taken, found, none_) =
            run_passes-names self functions m₀ processed
              (All-issued (laws.Issued m) (laws.Issued m₀) m.imports
                (laws.parts_keep m (arenas.remove_raw section_name m.customs).1 m.imports) all)
              ran in
          inr (
            taken,
            found,
            ap (λ (o : Module). funcs_names (is_surrogate taken.0) (is_replaced taken.0) o.funcs)
                  (sym (ok-inj made))
                ∙ laws.gc_names (is_surrogate taken.0) (is_replaced taken.0) processed none_,
          )
