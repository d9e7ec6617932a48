-- ===== src/Processor/Module.antt =====
-- The passes of crates/lib/src/processor over all functions of a module: `replace_calls` of functions.rs,
-- `transform_import`, `transform_export` and `process_functions` of state.rs. The traversals of walrus and the
-- ids that its arenas and builders give are parameters.
pub mod Replaced
pub mod Undeclared
pub mod Types
use externref.Prelude.{
  ℕ, zero, suc, ◌+◌, ◌-◌, Bool, true, false, ◌&&◌, List, [], ◌∷◌, ◌++◌, map, Option, none, some,
  ◌==◌, if◌then◌else◌, length, get_elem?, set, Outcome, ok, err, fault, ◌>>=◌, ◌>>◌, assert,
  or_fault, checked,
}
use externref.Signature.Types.{Function, FunctionKind, export, import}
use externref.Signature.Bits.{is_set, set_indices}
use externref.Processor.Ir.{FunctionId, SeqId, LocalId, Body}
use externref.Processor.Error.{Error}
use externref.Processor.Guards.{remove_guards}
use externref.Processor.Calls.{Import, ImportArena, FnMapping, PatchedFunctions, replace_body}
use externref.Processor.Types.{FuncType, patch_type_inner}
use externref.Processor.Locals.{
  NewLocals, Detected, replace_local, detect_body, contains, Visit, initial, count, reversed,
}
use externref.Processor.Locals.Transform.{LocalFunction, transform_local_fn}
use externref.Processor.Cloner.{SequenceMapping, start_instr_seqs, clone_function}
use externref.Processor.Resolve.{Export, function_id}

-- A function of the module, with its id.
pub data Func : Type 0 where
  imported_fn : FuncType → Func
  local_fn : LocalFunction → Func

abbrev pub Funcs : Type 0
Funcs = List (FunctionId × Func)

-- What `replace_calls` does to one local function: the function, the count, and whether it has a guard.
unfoldable pub replace_in :
    PatchedFunctions → LocalFunction → Outcome Error (LocalFunction × ℕ × Bool)
replace_in fns self =
    let (body', n) = replace_body fns.fn_mapping self.body in
    elim fns.guard_id [
      | none ↦ ok (record self { body = body' }, n, false)
      | some guard ↦ remove_guards guard self.name self.entry body' >>= λ r.
          ok (record self { body = r.1 }, n, r.0)
    ]

abbrev pub add_id : Bool → FunctionId → List FunctionId → List FunctionId
add_id true f fns = f ∷ fns
add_id false f fns = fns

-- `replace_calls`: the functions, `replaced_count`, and `guarded_fns`.
unfoldable pub replace_calls :
    PatchedFunctions → Funcs → Outcome Error (Funcs × ℕ × List FunctionId)
replace_calls fns [] = ok ([], 0, [])
replace_calls fns ((f, imported_fn t) ∷ funcs) = do
  (funcs', n, guarded) ← replace_calls fns funcs
  ok ((f, imported_fn t) ∷ funcs', n, guarded)
replace_calls fns ((f, local_fn self) ∷ funcs) = do
  (self', n, guard) ← replace_in fns self
  (funcs', more, guarded) ← replace_calls fns funcs
  ok ((f, local_fn self') ∷ funcs', n + more, add_id guard f guarded)

unfoldable pub func : Funcs → FunctionId → Option Func
func [] f = none
func ((g, k) ∷ funcs) f = if g == f then some k else func funcs f

unfoldable pub set_func : Funcs → FunctionId → Func → Funcs
set_func [] f k = []
set_func ((g, k') ∷ funcs) f k =
    let rest = set_func funcs f k in if g == f then (g, k) ∷ funcs else (g, k') ∷ rest

abbrev pub type_of : Func → FuncType
type_of (imported_fn t) = t
type_of (local_fn self) = self.type_

-- `transform_import`; `unwrap_import_mut` panics on a local function.
unfoldable pub transform_import : Funcs → Function → FunctionId → Outcome Error Funcs
transform_import funcs declared f = elim (func funcs f) [
  | none ↦ fault
  | some (local_fn self) ↦ fault
  | some (imported_fn t) ↦
      patch_type_inner declared t >>= λ t'. ok (set_func funcs f (imported_fn t'))
]

-- `refs.is_set(refs.bit_len() - 1)`, in a build with overflow checks.
unfoldable pub last_is_set : Function → Outcome Error Bool
last_is_set declared = elim declared.externrefs.bit_len [
  | zero ↦ fault
  | suc n ↦ checked (is_set declared.externrefs n)
]

unfoldable pub returns_last : Function → FuncType → Outcome Error Bool
returns_last declared t = if length t.results == 1 then last_is_set declared else ok false

unfoldable pub transform_if_import : Funcs → Function → FunctionId → Outcome Error Funcs
transform_if_import funcs declared f = elim declared.kind [
  | export ↦ ok funcs
  | import module_name ↦ transform_import funcs declared f
]

-- The first loop of `process_functions`: `functions_returning_ref` and the imports' types.
unfoldable pub process_imports :
    List (Option FunctionId × Function)
    → List FunctionId
    → Funcs
    → Outcome Error (List FunctionId × Funcs)
process_imports [] returning funcs = ok (returning, funcs)
process_imports ((none, declared) ∷ rest) returning funcs = process_imports rest returning funcs
process_imports ((some f, declared) ∷ rest) returning funcs = do
  k ← or_fault (func funcs f)
  last ← returns_last declared (type_of k)
  funcs' ← transform_if_import funcs declared f
  process_imports rest (add_id last f returning) funcs'

-- `functions_by_id`: of two declarations for one function the later is kept.
unfoldable pub declared_for : List (Option FunctionId × Function) → FunctionId → Option Function
declared_for [] f = none
declared_for ((none, declared) ∷ rest) f = declared_for rest f
declared_for ((some g, declared) ∷ rest) f = elim (declared_for rest f) [
  | none ↦ if g == f then some declared else none
  | some later ↦ some later
]

-- The loop over the arguments in `transform_export`.
unfoldable pub replace_args : List ℕ → List LocalId → Detected → List LocalId × Detected
replace_args [] args d = (args, d)
replace_args (idx ∷ is) args d = elim (get_elem? args idx) [
  | none ↦ replace_args is args d
  | some arg ↦ replace_args is (set args idx d.next_local) (replace_local d arg)
]

abbrev pub keys : NewLocals → List LocalId
keys new = map (λ p. p.0) new

-- What walrus gives: the visits and the starts of `dfs_in_order`, and the ids of a builder's sequences.
pub record Walrus : Type 0 where
  pub in_order : LocalFunction → List Visit
  pub started : LocalFunction → List SeqId
  pub func_body : SeqId
  pub dangling : ℕ → SeqId

abbrev pub ids_of : Option FunctionId → List FunctionId
ids_of none = []
ids_of (some f) = f ∷ []

module _ (walrus : Walrus) where
  -- `transform_export`, with the next local id before and after.
  unfoldable pub transform_export :
      List FunctionId → ℕ → Function → LocalFunction → Outcome Error (ℕ × LocalFunction)
  transform_export returning next_local declared self = do
    t ← patch_type_inner declared self.type_
    is ← checked (set_indices declared.externrefs)
    let (args, mapped_) =
        replace_args is self.args (record { next_local = next_local; new_locals = [] })
    let (d, body) =
        detect_body returning (record { next_local = mapped_.next_local; new_locals = [] })
          self.body
    let detected : LocalFunction = record self { args = args; body = body }
    let new_locals = mapped_.new_locals ++ d.new_locals
    let counted =
        count new_locals (initial new_locals (keys mapped_.new_locals)) (λ l s. [])
          (walrus.in_order detected)
    let m = start_instr_seqs walrus.func_body walrus.dangling 0 [] (walrus.started detected)
    cloned ← clone_function m m (reversed counted) body
    ok (
      d.next_local,
      record self { type_ = t; args = args; entry = walrus.func_body; body = cloned },
    )

  -- One round of the second loop of `process_functions`.
  unfoldable pub transform_fn :
      List (Option FunctionId × Function)
      → List FunctionId
      → List FunctionId
      → ℕ
      → FunctionId
      → LocalFunction
      → Outcome Error (ℕ × LocalFunction)
  transform_fn declarations returning guarded next_local f self =
      elim (declared_for declarations f) [
        | some declared ↦ transform_export returning next_local declared self
        | none ↦ transform_local_fn walrus.in_order returning (contains guarded f) next_local self
      ]

  unfoldable pub transform_fns :
      List (Option FunctionId × Function)
      → List FunctionId
      → List FunctionId
      → ℕ
      → Funcs
      → Outcome Error (ℕ × Funcs)
  transform_fns declarations returning guarded next_local [] = ok (next_local, [])
  transform_fns declarations returning guarded next_local ((f, imported_fn t) ∷ funcs) = do
    (next_local', funcs') ← transform_fns declarations returning guarded next_local funcs
    ok (next_local', (f, imported_fn t) ∷ funcs')
  transform_fns declarations returning guarded next_local ((f, local_fn self) ∷ funcs) = do
    (next_local', self') ← transform_fn declarations returning guarded next_local f self
    (next_local'', funcs') ← transform_fns declarations returning guarded next_local' funcs
    ok (next_local'', (f, local_fn self') ∷ funcs')

  unfoldable pub function_ids :
      ImportArena
      → List Export
      → List Import
      → List Function
      → Outcome Error (List (Option FunctionId × Function))
  function_ids arena exports imports [] = ok []
  function_ids arena exports imports (declared ∷ rest) = do
    id ← function_id arena exports imports declared
    ids ← function_ids arena exports imports rest
    ok ((id, declared) ∷ ids)

  -- `process_functions`.
  unfoldable pub process_functions :
      ImportArena
      → List Export
      → List Import
      → PatchedFunctions
      → List Function
      → List FunctionId
      → ℕ
      → Funcs
      → Outcome Error (ℕ × Funcs)
  process_functions arena exports imports fns functions guarded next_local funcs = do
    declarations ← function_ids arena exports imports functions
    (returning, funcs') ← process_imports declarations (ids_of fns.get_ref_id) funcs
    transform_fns declarations returning guarded next_local funcs'
