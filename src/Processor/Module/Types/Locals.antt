-- ===== src/Processor/Module/Types/Locals.antt =====
-- The types of local functions after the second loop of `process_functions` of
-- crates/lib/src/processor/state.rs, and of all functions after both.
use externref.Prelude.{
  ℕ, ◌≡◌, refl, sym, ap, subst, ◌∙◌, Bool, true, false, List, [], ◌∷◌, Option, none, some, ◌==◌,
  if◌then◌else◌, Outcome, ok, err, >>=-eq-ok, ok-inj, checked, inl, inr, Bool-cases, Option-cases,
  ==→eq,
}
use externref.Signature.Types.{Function}
use externref.Processor.Ir.{FunctionId}
use externref.Processor.Error.{Error}
use externref.Processor.Types.{FuncType, patch_type_inner}
use externref.Processor.Calls.{Import, ImportArena, PatchedFunctions}
use externref.Processor.Resolve.{Export}
use externref.Signature.Bits.{set_indices}
use externref.Processor.Cloner.{clone_function}
use externref.Processor.Locals.{Visit, contains}
use externref.Processor.Locals.Transform.{LocalFunction, transform_local_fn}
use externref.Processor.Module.{
  Func, imported_fn, local_fn, Funcs, Walrus, func, process_imports, declared_for, transform_export,
  transform_fn, transform_fns, function_ids, ids_of, process_functions,
}
use externref.Processor.Module.Types.{
  Declarations, import_type, local_type, Retyped, Imported, Local,
}
use externref.Processor.Module.Types.Imports.{process_imports-Imported}

-- What a test of two conditions gives, one of which is an error.
of_tests :
    (a b : Bool) (x y : ℕ × LocalFunction) (e : Error) (p : (ℕ × LocalFunction) → Type 0)
    (out : ℕ × LocalFunction)
    → p x
    → p y
    → (if a then ok x else if b then ok y else err e) ≡ ok out
    → p out
of_tests true b x y e p out px py h = subst p (ok-inj h) px
of_tests false true x y e p out px py h = subst p (ok-inj h) py
of_tests false false x y e p out px py h = cc

transform_local_fn-type :
    (in_order : LocalFunction → List Visit) (fns : List FunctionId) (guarded : Bool)
    (next_local : ℕ) (self : LocalFunction) (out : ℕ × LocalFunction)
    → transform_local_fn in_order fns guarded next_local self ≡ ok out
    → self.type_ ≡ out.1.type_
unfolding transform_local_fn
transform_local_fn-type in_order fns guarded next_local self out h =
    of_tests _ guarded _ _ _ (λ o. self.type_ ≡ o.1.type_) out refl refl h

transform_export-type :
    (walrus : Walrus) (returning : List FunctionId) (next_local : ℕ) (declared : Function)
    (self : LocalFunction) (out : ℕ × LocalFunction)
    → transform_export walrus returning next_local declared self ≡ ok out
    → patch_type_inner declared self.type_ ≡ ok out.1.type_
unfolding transform_export
transform_export-type walrus returning next_local declared self out h =
    let (t, patched, h₁) = >>=-eq-ok (patch_type_inner declared self.type_) _ h in
    let (is, _, h₂) = >>=-eq-ok (checked (set_indices declared.externrefs)) _ h₁ in
    let (cloned, _, made) = >>=-eq-ok (clone_function _ _ _ _) _ h₂ in
    patched ∙ ap (λ (o : ℕ × LocalFunction). ok o.1.type_) (ok-inj made)

-- One function more in front.
pub Local-cons :
    (p : FunctionId → FuncType → Outcome Error FuncType) (f g : FunctionId) (k k' : Func)
    (funcs funcs' : Funcs)
    → Local (p f) (some k) (some k')
    → Local (p g) (func funcs g) (func funcs' g)
    → Local (p g) (func ((f, k) ∷ funcs) g) (func ((f, k') ∷ funcs') g)
unfolding func
Local-cons p f g k k' funcs funcs' here_ there = elim (Bool-cases (f == g)) [
  | inl same ↦ rw same (subst (λ i. Local (p i) (some k) (some k')) (==→eq f g same) here_)
  | inr other ↦ rw other there
]

module _ (walrus : Walrus) (ds : Declarations) (returning guarded : List FunctionId) where
  transform_fn-type :
      (next_local : ℕ) (f : FunctionId) (self : LocalFunction) (out : ℕ × LocalFunction)
      → transform_fn walrus ds returning guarded next_local f self ≡ ok out
      → local_type (declared_for ds f) self.type_ ≡ ok out.1.type_
  unfolding transform_fn
  transform_fn-type next_local f self out h = elim (Option-cases (declared_for ds f)) [
    | inl none_ ↦ rw none_ (
        ap ok (
          transform_local_fn-type walrus.in_order returning (contains guarded f) next_local self out
            (rw (transform_fn, none_) at h)))
    | inr (declared, found) ↦ rw found (
        transform_export-type walrus returning next_local declared self out
          (rw (transform_fn, found) at h))
  ]

  transform_fns-Local :
      (next_local : ℕ) (funcs : Funcs) (g : FunctionId) (out : ℕ × Funcs)
      → transform_fns walrus ds returning guarded next_local funcs ≡ ok out
      → Local (local_type (declared_for ds g)) (func funcs g) (func out.1 g)
  unfolding transform_fns func
  transform_fns-Local next_local [] g out h = ap (λ (o : ℕ × Funcs). func o.1 g) (sym (ok-inj h))
  transform_fns-Local next_local ((f, imported_fn t) ∷ funcs) g out h =
      let (rest, more, made) =
        >>=-eq-ok (transform_fns walrus ds returning guarded next_local funcs) _ h in
      subst
        (λ (o : ℕ × Funcs).
          Local (local_type (declared_for ds g)) (func ((f, imported_fn t) ∷ funcs) g) (func o.1 g))
        (ok-inj made)
        (Local-cons (λ i. local_type (declared_for ds i)) f g (imported_fn t) (imported_fn t) funcs
          rest.1 refl (transform_fns-Local next_local funcs g rest more))
  transform_fns-Local next_local ((f, local_fn self) ∷ funcs) g out h =
      let (one, done, h₁) =
        >>=-eq-ok (transform_fn walrus ds returning guarded next_local f self) _ h in
      let (rest, more, made) =
        >>=-eq-ok (transform_fns walrus ds returning guarded one.0 funcs) _ h₁ in
      subst
        (λ (o : ℕ × Funcs).
          Local (local_type (declared_for ds g)) (func ((f, local_fn self) ∷ funcs) g) (func o.1 g))
        (ok-inj made)
        (Local-cons (λ i. local_type (declared_for ds i)) f g (local_fn self) (local_fn one.1) funcs
          rest.1 (one.1, refl, transform_fn-type next_local f self one done)
          (transform_fns-Local one.0 funcs g rest more))

Retyped-both :
    (ds : Declarations) (g : FunctionId) (a b c : Option Func)
    → Imported (import_type ds g) a b
    → Local (local_type (declared_for ds g)) b c
    → Retyped ds g a c
Retyped-both ds g none b c h k = subst (λ o. Local (local_type (declared_for ds g)) o c) h k
Retyped-both ds g (some (imported_fn t)) b c (t', e, h) k =
    (t', subst (λ o. Local (local_type (declared_for ds g)) o c) e k, h)
Retyped-both ds g (some (local_fn self)) b c h k =
    subst (λ o. Local (local_type (declared_for ds g)) o c) h k

-- If `process_functions` ends without an error, then it has resolved the declarations to ids, and the same ids
-- name functions before and after. An imported function is still imported, and its type is the one that its
-- declarations patch it to, one after the other; a local function is still local, and its type is the one that the
-- last declaration that resolved to it patches it to, or its old type where there is none.
pub process_functions-Retyped :
    (walrus : Walrus) (arena : ImportArena) (exports : List Export) (imports : List Import)
    (fns : PatchedFunctions) (functions : List Function) (guarded : List FunctionId)
    (next_local : ℕ) (funcs : Funcs) (out : ℕ × Funcs) (f : FunctionId)
    → process_functions walrus arena exports imports fns functions guarded next_local funcs ≡ ok out
    → (ds : Declarations) × (function_ids walrus arena exports imports functions ≡ ok ds)
      × Retyped ds f (func funcs f) (func out.1 f)
unfolding process_functions
process_functions-Retyped walrus arena exports imports fns functions guarded next_local funcs out f
      h =
    let (ds, resolved, h₁) = >>=-eq-ok (function_ids walrus arena exports imports functions) _ h in
    let (mid, done, last) = >>=-eq-ok (process_imports ds (ids_of fns.get_ref_id) funcs) _ h₁ in
    (
      ds,
      resolved,
      Retyped-both ds f (func funcs f) (func mid.1 f) (func out.1 f)
          (process_imports-Imported ds (ids_of fns.get_ref_id) mid.0 funcs mid.1 f done)
          (transform_fns-Local walrus ds mid.0 guarded next_local mid.1 f out last),
    )
