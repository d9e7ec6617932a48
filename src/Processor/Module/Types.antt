-- ===== src/Processor/Module/Types.antt =====
-- The types of the functions that `process_functions` of crates/lib/src/processor/state.rs leaves.
pub mod Imports
pub mod Locals
use externref.Prelude.{
  ℕ, ◌≡◌, refl, sym, ap, subst, ◌∙◌, Bool, true, false, List, [], ◌∷◌, Option, none, some, ◌==◌,
  if◌then◌else◌, Outcome, ok, err, fault, ◌>>=◌, >>=-eq-ok, ok-inj, or_fault, checked, Str, inl,
  inr, Bool-cases, Option-cases, ==→eq, arith,
}
use externref.Signature.Types.{Function, FunctionKind, export, import}
use externref.Processor.Ir.{FunctionId}
use externref.Processor.Error.{Error}
use externref.Processor.Types.{FuncType, patch_type_inner}
use externref.Processor.Calls.{Import, ImportArena, PatchedFunctions}
use externref.Processor.Resolve.{Export}
use externref.Signature.Bits.{set_indices}
use externref.Processor.Cloner.{clone_function}
use externref.Processor.Locals.{Visit, contains}
use externref.Processor.Locals.Transform.{LocalFunction, transform_local_fn}
use externref.Processor.Module.{
  Func, imported_fn, local_fn, Funcs, Walrus, func, set_func, transform_import, transform_if_import,
  process_imports, returns_last, type_of, add_id, declared_for, transform_export, transform_fn,
  transform_fns, function_ids, ids_of, process_functions,
}

abbrev pub Declarations : Type 0
Declarations = List (Option FunctionId × Function)

abbrev pub patch_of : FunctionKind → Function → FuncType → Outcome Error FuncType
patch_of export declared t = ok t
patch_of (import module_name) declared t = patch_type_inner declared t

abbrev pub patch_import : Function → FuncType → Outcome Error FuncType
patch_import declared = patch_of declared.kind declared

-- The type of the imported function `f`, patched by each declaration of an import that names it, in their order.
unfoldable pub import_type : Declarations → FunctionId → FuncType → Outcome Error FuncType
import_type [] f t = ok t
import_type ((none, declared) ∷ rest) f t = import_type rest f t
import_type ((some g, declared) ∷ rest) f t =
    (if g == f then patch_import declared t else ok t) >>= import_type rest f

-- The type of a local function, patched by the last declaration that names it.
abbrev pub local_type : Option Function → FuncType → Outcome Error FuncType
local_type none t = ok t
local_type (some declared) t = patch_type_inner declared t

-- What became of the function with the id `f`.
abbrev pub Retyped : Declarations → FunctionId → Option Func → Option Func → Type 0
Retyped ds f none o = o ≡ none
Retyped ds f (some (imported_fn t)) o =
    (t' : FuncType) × (o ≡ some (imported_fn t')) × (import_type ds f t ≡ ok t')
Retyped ds f (some (local_fn self)) o =
    (self' : LocalFunction) × (o ≡ some (local_fn self'))
    × (local_type (declared_for ds f) self.type_ ≡ ok self'.type_)

-- The two loops one by one: the first changes imported functions, by a given function on their types, the
-- second local ones.
abbrev pub Imported : (FuncType → Outcome Error FuncType) → Option Func → Option Func → Type 0
Imported p none o = o ≡ none
Imported p (some (imported_fn t)) o = (t' : FuncType) × (o ≡ some (imported_fn t')) × (p t ≡ ok t')
Imported p (some (local_fn self)) o = o ≡ some (local_fn self)

abbrev pub Local : (FuncType → Outcome Error FuncType) → Option Func → Option Func → Type 0
Local p none o = o ≡ none
Local p (some (imported_fn t)) o = o ≡ some (imported_fn t)
Local p (some (local_fn self)) o =
    (self' : LocalFunction) × (o ≡ some (local_fn self')) × (p self.type_ ≡ ok self'.type_)
