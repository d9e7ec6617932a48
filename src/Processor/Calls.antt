-- ===== src/Processor/Calls.antt =====
-- `ExternrefImports`, `PatchedFunctions::new` and `replace_calls` of
-- crates/lib/src/processor/functions.rs.
pub mod Replaced
use externref.Prelude.{
  str_eq, ℕ, zero, suc, ◌+◌, Bool, true, false, ◌&&◌, ◌||◌, List, [], ◌∷◌, ◌++◌, map, Option, none,
  some, ◌==◌, if◌then◌else◌, Outcome, ok, err, fault, ◌>>=◌, ◌>>◌, Str, text,
}
use externref.Processor.Ir.{
  Instr, call, ref_func, InstrLocId, Instrs, InstrSeq, Body, SeqId, FunctionId,
}
use externref.Processor.Error.{Error, unexpected_import_type}

-- An import or export item: a function, or one of the other kinds.
pub data Item : Type 0 where
  function : FunctionId → Item
  not_function : ℕ → Item

pub record Import : Type 0 where
  pub module_name : Str
  pub name : Str
  pub item : Item

-- The arena of imports of walrus: the import of a module and a name, and the arena without it.
pub record ImportArena : Type 0 where
  pub find : Str → Str → List Import → Option Import
  pub delete : Str → Str → List Import → List Import

abbrev pub surrogate : Str
surrogate = text "externref"

abbrev pub taken_item :
    ImportArena → Str → List Import → Item → Outcome Error (Option FunctionId × List Import)
taken_item arena name imports (function f) = ok (some f, arena.delete surrogate name imports)
taken_item arena name imports (not_function k) = err (unexpected_import_type surrogate name)

-- `ExternrefImports::take_import`
unfoldable pub take_import :
    ImportArena → List Import → Str → Outcome Error (Option FunctionId × List Import)
take_import arena imports name = elim (arena.find surrogate name imports) [
  | none ↦ ok (none, imports)
  | some i ↦ taken_item arena name imports i.item
]

pub record ExternrefImports : Type 0 where
  pub insert : Option FunctionId
  pub get : Option FunctionId
  pub drop : Option FunctionId
  pub guard : Option FunctionId

-- `ExternrefImports::new`
unfoldable pub take_imports :
    ImportArena → List Import → Outcome Error (ExternrefImports × List Import)
take_imports arena imports = do
  (insert, imports₁) ← take_import arena imports (text "insert")
  (get, imports₂) ← take_import arena imports₁ (text "get")
  (drop, imports₃) ← take_import arena imports₂ (text "drop")
  (guard, imports₄) ← take_import arena imports₃ (text "guard")
  ok (record { insert = insert; get = get; drop = drop; guard = guard }, imports₄)

-- A map from old to new functions: what was inserted last stands first.
abbrev pub FnMapping : Type 0
FnMapping = List (FunctionId × FunctionId)

unfoldable pub mapped : FnMapping → FunctionId → Option FunctionId
mapped [] f = none
mapped ((k, v) ∷ m) f = if k == f then some v else mapped m f

pub record PatchedFunctions : Type 0 where
  pub fn_mapping : FnMapping
  pub get_ref_id : Option FunctionId
  pub guard_id : Option FunctionId

abbrev pub entry : Option FunctionId → FunctionId → FnMapping
entry none new_id = []
entry (some f) new_id = (f, new_id) ∷ []

abbrev when : Option FunctionId → FunctionId → Option FunctionId
when none new_id = none
when (some f) new_id = some new_id

-- The bookkeeping of `PatchedFunctions::new`: `insert_id`, `get_id` and `drop_id` are the ids that walrus
-- gives to the functions built by `patch_insert_fn`, `patch_get_fn` and `patch_drop_fn`.
unfoldable pub patched_functions :
    ExternrefImports → FunctionId → FunctionId → FunctionId → PatchedFunctions
patched_functions imports insert_id get_id drop_id = record {
  fn_mapping =
      entry imports.drop drop_id ++ (entry imports.get get_id ++ entry imports.insert insert_id);
  get_ref_id = when imports.get get_id;
  guard_id = imports.guard;
}

-- `visit_function_id_mut`: the id after the visit, and the count.
unfoldable pub visit_function_id : FnMapping → FunctionId → FunctionId × ℕ
visit_function_id m f = elim (mapped m f) [ none ↦ (f, 0) | some v ↦ (v, 1) ]

-- An instruction's visit reaches the function id that it holds.
unfoldable pub visit_instr : FnMapping → Instr → Instr × ℕ
visit_instr m (call f) = let r = visit_function_id m f in (call r.0, r.1)
visit_instr m (ref_func f) = let r = visit_function_id m f in (ref_func r.0, r.1)
visit_instr m i = (i, 0)

unfoldable pub replace_instrs : FnMapping → Instrs → Instrs × ℕ
replace_instrs m [] = ([], 0)
replace_instrs m ((i, loc) ∷ rest) =
    let r = visit_instr m i in
    let (rest', n) = replace_instrs m rest in ((r.0, loc) ∷ rest', r.1 + n)

unfoldable pub replace_body : FnMapping → Body → Body × ℕ
replace_body m [] = ([], 0)
replace_body m (seq ∷ body) =
    let r = replace_instrs m seq.instrs in
    let (body', n) = replace_body m body in (record seq { instrs = r.0 } ∷ body', r.1 + n)
