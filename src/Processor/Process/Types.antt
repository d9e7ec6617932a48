-- ===== src/Processor/Process/Types.antt =====
-- The types of the functions in a module that was processed.
use externref.Prelude.{
  ℕ, ◌≡◌, refl, sym, ap, subst, ◌∙◌, Bool, List, [], ◌∷◌, Option, none, some, ok, ◌>>=◌, >>=-eq-ok,
  ok-inj, inl, inr, Option-cases,
}
use externref.Signature.Types.{Function}
use externref.Signature.Reader.{parse_section}
use externref.Processor.Ir.{FunctionId}
use externref.Processor.Guards.{remove_guards}
use externref.Processor.Calls.{PatchedFunctions, replace_body}
use externref.Processor.Resolve.{Options}
use externref.Processor.Locals.Transform.{LocalFunction}
use externref.Processor.Module.{
  Func, imported_fn, local_fn, Funcs, func, replace_in, replace_calls, declared_for, function_ids,
  process_functions,
}
use externref.Processor.Module.Types.{local_type, Declarations, Retyped, Local}
use externref.Processor.Module.Types.Locals.{Local-cons, process_functions-Retyped}
use externref.Processor.Process.{
  Bytes, Module, Arenas, section_name, parsed, state_new, run_state, run_passes, process_section,
  process,
}

-- Garbage collection keeps a function as it is, or removes it.
abbrev pub GcKeeps : Arenas → Type 0
GcKeeps arenas =
    (m : Module) (f : FunctionId) (k : Func)
    → func (arenas.gc m).funcs f ≡ some k
    → func m.funcs f ≡ some k

replace_in-type :
    (fns : PatchedFunctions) (self : LocalFunction) (out : LocalFunction × ℕ × Bool)
    → replace_in fns self ≡ ok out
    → self.type_ ≡ out.0.type_
unfolding replace_in
replace_in-type fns self out h = elim (Option-cases fns.guard_id) [
  | inl none_ ↦
      ap (λ (o : LocalFunction × ℕ × Bool). o.0.type_) (ok-inj (rw (replace_in, none_) at h))
  | inr (guard, some_) ↦
      let r = replace_body fns.fn_mapping self.body in
      let h' : (remove_guards guard self.name self.entry r.0 >>= λ v.
      ok (record self { body = v.1 }, r.1, v.0))
          ≡ ok out =
        rw (replace_in, some_) at h in
      let (v, _, made) = >>=-eq-ok (remove_guards guard self.name self.entry r.0) _ h' in
      ap (λ (o : LocalFunction × ℕ × Bool). o.0.type_) (ok-inj made)
]

-- The replacement of calls keeps the types.
replace_calls-Local :
    (fns : PatchedFunctions) (funcs : Funcs) (g : FunctionId) (out : Funcs × ℕ × List FunctionId)
    → replace_calls fns funcs ≡ ok out
    → Local ok (func funcs g) (func out.0 g)
unfolding replace_calls func
replace_calls-Local fns [] g out h =
    ap (λ (o : Funcs × ℕ × List FunctionId). func o.0 g) (sym (ok-inj h))
replace_calls-Local fns ((f, imported_fn t) ∷ funcs) g out h =
    let (rest, more, made) = >>=-eq-ok (replace_calls fns funcs) _ h in
    subst
      (λ (o : Funcs × ℕ × List FunctionId).
        Local ok (func ((f, imported_fn t) ∷ funcs) g) (func o.0 g))
      (ok-inj made)
      (Local-cons (λ i. ok) f g (imported_fn t) (imported_fn t) funcs rest.0 refl
        (replace_calls-Local fns funcs g rest more))
replace_calls-Local fns ((f, local_fn self) ∷ funcs) g out h =
    let (one, done, h₁) = >>=-eq-ok (replace_in fns self) _ h in
    let (rest, more, made) = >>=-eq-ok (replace_calls fns funcs) _ h₁ in
    subst
      (λ (o : Funcs × ℕ × List FunctionId).
        Local ok (func ((f, local_fn self) ∷ funcs) g) (func o.0 g))
      (ok-inj made)
      (Local-cons (λ i. ok) f g (local_fn self) (local_fn one.0) funcs rest.0
        (one.0, refl, ap ok (replace_in-type fns self one done))
        (replace_calls-Local fns funcs g rest more))

Retyped-Local :
    (ds : Declarations) (g : FunctionId) (a b c : Option Func)
    → Local ok a b
    → Retyped ds g b c
    → Retyped ds g a c
Retyped-Local ds g none b c l r = subst (λ o. Retyped ds g o c) l r
Retyped-Local ds g (some (imported_fn t)) b c l r = subst (λ o. Retyped ds g o c) l r
Retyped-Local ds g (some (local_fn self)) b c (self₁, e, same) r =
    let (self', e', typed) = subst (λ o. Retyped ds g o c) e r in
    (self', e', ap (local_type (declared_for ds g)) (ok-inj same) ∙ typed)

module _ (arenas : Arenas) (gc : GcKeeps arenas) where
  run_state-Retyped :
      (functions : List Function) (state : PatchedFunctions × Module) (m' : Module) (f : FunctionId)
      → run_state arenas functions state ≡ ok m'
      → (ds : Declarations) × (function_ids arenas.walrus arenas.import_arena state.1.exports
            state.1.imports functions
          ≡ ok ds)
        × Retyped ds f (func state.1.funcs f) (func m'.funcs f)
  unfolding run_state
  run_state-Retyped functions state m' f h =
      let (replaced, done, h₁) = >>=-eq-ok (replace_calls state.0 state.1.funcs) _ h in
      let (out, processed, made) =
        >>=-eq-ok (process_functions _ _ _ _ _ functions _ _ replaced.0) _ h₁ in
      let (ds, resolved, retyped) =
        process_functions-Retyped arenas.walrus arenas.import_arena state.1.exports state.1.imports
          state.0 functions replaced.2 state.1.next_local replaced.0 out f processed in
      (
        ds,
        resolved,
        subst (λ (o : Module). Retyped ds f (func state.1.funcs f) (func o.funcs f)) (ok-inj made)
            (Retyped-Local ds f (func state.1.funcs f) (func replaced.0 f) (func out.1 f)
              (replace_calls-Local state.0 state.1.funcs f replaced done) retyped),
      )

  -- Let garbage collection keep a function as it is or remove it. If a module has a section that parses, and
  -- `process` ends without an error, then each function that is left was there when the surrogates had been taken
  -- out, as an import or as a local function like now, and the declarations of the section, resolved in that
  -- module, patched its old type to its new one; without a declaration the type is the old one.
  pub process-Retyped :
      (self : Options) (m m' : Module) (raw_section : Bytes) (functions : List Function)
      (f : FunctionId) (k : Func)
      → (arenas.remove_raw section_name m.customs).0 ≡ some raw_section
      → parsed (parse_section raw_section) ≡ ok functions
      → process arenas self m ≡ ok m'
      → func m'.funcs f ≡ some k
      → (state : PatchedFunctions × Module) × (state_new arenas self
            (record m { customs = (arenas.remove_raw section_name m.customs).1 })
          ≡ ok state)
        × ((ds : Declarations) × (function_ids arenas.walrus arenas.import_arena state.1.exports
                state.1.imports functions
              ≡ ok ds)
            × Retyped ds f (func state.1.funcs f) (some k))
  unfolding process
  process-Retyped self m m' raw_section functions f k found read h left =
      let m₀ : Module = record m { customs = (arenas.remove_raw section_name m.customs).1 } in
      let h₁ : process_section arenas self (some raw_section) m₀ ≡ ok m' =
        ap (λ (o : Option Bytes). process_section arenas self o m₀) (sym found) ∙ h in
      let (functions₁, read₁, h₂) = >>=-eq-ok (parsed (parse_section raw_section)) _ h₁ in
      let same : functions₁ ≡ functions = ok-inj (sym read₁ ∙ read) in
      let (processed, ran, made) = >>=-eq-ok (run_passes arenas self functions₁ m₀) _ h₂ in
      let (state, new_, ran₁) =
        >>=-eq-ok (state_new arenas self m₀) (run_state arenas functions₁) ran in
      let kept : func processed.funcs f ≡ some k =
        gc processed f k (ap (λ (o : Module). func o.funcs f) (ok-inj made) ∙ left) in
      let (ds, resolved, retyped) = run_state-Retyped functions₁ state processed f ran₁ in
      (
        state,
        new_,
        (
          ds,
          ap (function_ids arenas.walrus arenas.import_arena state.1.exports state.1.imports)
                (sym same)
              ∙ resolved,
          subst (Retyped ds f (func state.1.funcs f)) kept retyped,
        ),
      )
