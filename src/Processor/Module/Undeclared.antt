-- ===== src/Processor/Module/Undeclared.antt =====
-- A module whose section declares nothing and that reads no reference.
use externref.Prelude.{ℕ, ◌≡◌, refl, false, List, [], ◌∷◌, none, ok}
use externref.Processor.Ir.{Instr, Instrs, Body, FunctionId, call}
use externref.Processor.Calls.{Import, ImportArena, PatchedFunctions}
use externref.Processor.Locals.{returns_ref, contains}
use externref.Processor.Locals.Unguarded.{
  stores_ref, body_stores_ref, transform_local_fn-body_stores_ref,
}
use externref.Processor.Resolve.{Export}
use externref.Processor.Module.{
  imported_fn, local_fn, Funcs, Walrus, transform_fn, transform_fns, declared_for, function_ids,
  process_imports, process_functions,
}

returns_ref-nil : (i : Instr) → returns_ref [] i ≡ false
unfolding returns_ref contains
returns_ref-nil (call f) = refl
returns_ref-nil _ = refl

stores_ref-nil : (is : Instrs) → stores_ref [] false is ≡ false
unfolding stores_ref
stores_ref-nil [] = refl
stores_ref-nil ((i, loc) ∷ is) = rw (returns_ref-nil i) (stores_ref-nil is)

body_stores_ref-nil : (body : Body) → body_stores_ref [] body ≡ false
unfolding body_stores_ref
body_stores_ref-nil [] = refl
body_stores_ref-nil (seq ∷ body) = rw (stores_ref-nil seq.instrs) (body_stores_ref-nil body)

transform_fns-nil :
    (walrus : Walrus) (guarded : List FunctionId) (next_local : ℕ) (funcs : Funcs)
    → transform_fns walrus [] [] guarded next_local funcs ≡ ok (next_local, funcs)
unfolding transform_fns transform_fn declared_for
transform_fns-nil walrus guarded next_local [] = refl
transform_fns-nil walrus guarded next_local ((f, imported_fn t) ∷ funcs) =
    rw (transform_fns-nil walrus guarded next_local funcs)
transform_fns-nil walrus guarded next_local ((f, local_fn self) ∷ funcs) = rw (
  transform_local_fn-body_stores_ref walrus.in_order [] (contains guarded f) next_local self
      (body_stores_ref-nil self.body),
  transform_fns-nil walrus guarded next_local funcs,
)

-- If the section declares no function and the module does not import `get`, then `process_functions` ends
-- without an error, and leaves every function as it is, guarded or not.
pub process_functions-nil :
    (walrus : Walrus) (arena : ImportArena) (exports : List Export) (imports : List Import)
    (fns : PatchedFunctions) (guarded : List FunctionId) (next_local : ℕ) (funcs : Funcs)
    → fns.get_ref_id ≡ none
    → process_functions walrus arena exports imports fns [] guarded next_local funcs
      ≡ ok (next_local, funcs)
unfolding process_functions function_ids process_imports
process_functions-nil walrus arena exports imports fns guarded next_local funcs h =
    rw h (transform_fns-nil walrus guarded next_local funcs)
