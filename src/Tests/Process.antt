-- ===== src/Tests/Process.antt =====
-- Examples of `process`, with arenas that count the ids of functions in the field `rest`.
use externref.Prelude.{
  ℕ, ◌+◌, ◌<◌, ◌≡◌, refl, Bool, false, ◌&&◌, List, [], ◌∷◌, ◌++◌, Option, none, some, ok, err, Str,
  text, str_eq, if◌then◌else◌, All, Bool-cases, inl, inr, ◌⊎◌, arith, subst,
}
use externref.Signature.Reader.{parse_section, parse_section_loop}
use externref.Processor.Ir.{i32, extern_ref, call, local_get, default, FunctionId}
use externref.Processor.Calls.{
  function, not_function, Import, take_import, take_imports, ExternrefImports, mapped,
  patched_functions, visit_function_id, visit_instr, replace_instrs, replace_body,
}
use externref.Processor.Types.{FuncType}
use externref.Processor.Resolve.{default_options}
use externref.Processor.Locals.{contains, returns_ref, detect_instr, detect_instrs, detect_body}
use externref.Processor.Locals.Transform.{LocalFunction, transform_local_fn}
use externref.Processor.Module.{
  Func, imported_fn, local_fn, replace_in, replace_calls, process_imports, declared_for,
  transform_fn, transform_fns, function_ids, process_functions,
}
use externref.Processor.Process.{
  Bytes, Module, Arenas, section_name, export_table, replace_import, add_hook, replace_drop,
  patched_new, state_new, run_state, process,
}
use externref.Processor.Process.Kept.{funcs_names}
use externref.Processor.Process.Fresh.{ItemIssued, WalrusLaws}
use externref.Processor.Process.Surrogates.{process-is_surrogate}
use externref.Processor.Process.Keys.{is_surrogate, is_replaced}

abbrev is_at : Str → Str → Import → Bool
is_at s name i = str_eq i.module_name s && str_eq i.name name

abbrev pub find : Str → Str → List Import → Option Import
find s name [] = none
find s name (i ∷ is) = if is_at s name i then some i else find s name is

abbrev pub delete : Str → Str → List Import → List Import
delete s name [] = []
delete s name (i ∷ is) = let rest = delete s name is in if is_at s name i then rest else i ∷ rest

find_all :
    (P : Import → Type 0) (s name : Str) (is : List Import) (i : Import)
    → All P is
    → find s name is ≡ some i
    → P i
find_all P s name [] i all e = cc
find_all P s name (j ∷ is) i (p, all) e = elim (Bool-cases (is_at s name j)) [
  | inl yes_ ↦ let e' : some j ≡ some i = rw yes_ at e in let same : j ≡ i = cc in subst P same p
  | inr no_ ↦ find_all P s name is i all (rw no_ at e)
]

delete-All :
    (P : Import → Type 0) (s name : Str) (is : List Import) → All P is → All P (delete s name is)
delete-All P s name [] all = tt
delete-All P s name (j ∷ is) (p, all) = elim (Bool-cases (is_at s name j)) [
  | inl yes_ ↦ rw yes_ (delete-All P s name is all)
  | inr no_ ↦ rw no_ (p, delete-All P s name is all)
]

abbrev pub remove_raw : Str → List (Str × Bytes) → Option Bytes × List (Str × Bytes)
remove_raw s [] = (none, [])
remove_raw s ((t, data_) ∷ customs) =
    let rest = remove_raw s customs in
    if str_eq t s then (some data_, customs) else (rest.0, (t, data_) ∷ rest.1)

abbrev built : FuncType → LocalFunction
built ty = record {
  name = none;
  type_ = ty;
  args = [];
  entry = 0;
  body = record { id = 0; instrs = [] } ∷ [];
}

abbrev add_func : Func → Module → FunctionId × Module
add_func k m = (m.rest, record m { rest = m.rest + 1; funcs = m.funcs ++ ((m.rest, k) ∷ []) })

abbrev pub arenas : Arenas
arenas = record {
  import_arena = record { find = find; delete = delete };
  walrus = record { in_order = λ f. []; started = λ f. []; func_body = 0; dangling = λ n. n + 1 };
  remove_raw = remove_raw;
  add_table = λ m. (0, m);
  add_export = λ name item exports. record { name = name; item = item } ∷ exports;
  delete_func = λ f m. m;
  finish = λ ty code m. add_func (local_fn (built ty)) m;
  add_import_func = λ s name ty m. add_func (imported_fn ty) m;
  gc = λ m. m;
  from_buffer = λ bytes. err bytes;
  emit_wasm = λ m. [];
}

kept_by_export :
    (m : Module) (name : Option Str) (id f : ℕ)
    → f < m.rest
    → f < (export_table arenas name id m).rest
kept_by_export m none id f h = h
kept_by_export m (some name) id f h = h

lt-add : (f n : ℕ) → f < n → f < n + 1
lt-add f n h = omega (arith, h)

lt_irrefl : (n : ℕ) → n < n → ⊥
lt_irrefl n h = omega (arith, h)

abbrev laws : WalrusLaws arenas
laws = record {
  find_all = find_all;
  delete_all = delete-All;
  Issued = λ m f. f < m.rest;
  parts_keep = λ m customs imports f h. h;
  export_keeps = kept_by_export;
  table_keeps = λ m f h. h;
  delete_keeps = λ g m f h. h;
  import_keeps = λ s name ty m f h. lt-add f m.rest h;
  finish_keeps = λ ty code m f h. lt-add f m.rest h;
  finish_new = λ ty code m h. lt_irrefl m.rest h;
  gc_names = λ calls refs m h. h;
}

-- A module that imports `insert` and another function, with an empty section and one function of its own.
abbrev pub int : FuncType
int = record { params = i32 ∷ []; results = i32 ∷ [] }

abbrev pub caller : FunctionId → LocalFunction
caller f = record {
  name = none;
  type_ = int;
  args = 0 ∷ [];
  entry = 0;
  body =
      record {
        id = 0;
        instrs = (local_get 0, default) ∷ ((call f, default) ∷ ((call 1, default) ∷ []));
      }
      ∷ [];
}

abbrev pub other_import : Import
other_import = record { module_name = text "test"; name = text "function"; item = function 1 }

abbrev pub before_ : Module
before_ = record {
  customs = (section_name, []) ∷ [];
  imports =
      record { module_name = text "externref"; name = text "insert"; item = function 0 }
      ∷ (other_import ∷ []);
  exports = [];
  funcs = (0, imported_fn int) ∷ ((1, imported_fn int) ∷ ((2, local_fn (caller 0)) ∷ []));
  next_local = 1;
  rest = 3;
}

abbrev pub insert_fn : LocalFunction
insert_fn = built (record { params = extern_ref ∷ []; results = i32 ∷ [] })

abbrev pub after_ : Module
after_ = record {
  customs = [];
  imports = other_import ∷ [];
  exports = record { name = text "externrefs"; item = not_function 0 } ∷ [];
  funcs =
      (0, imported_fn int)
      ∷ ((1, imported_fn int) ∷ ((2, local_fn (caller 3)) ∷ ((3, local_fn insert_fn) ∷ [])));
  next_local = 1;
  rest = 4;
}

processed : process arenas default_options before_ ≡ ok after_
unfolding process state_new run_state parse_section parse_section_loop take_imports take_import
    patched_new replace_import replace_drop add_hook patched_functions replace_calls replace_in
    replace_body replace_instrs visit_instr visit_function_id mapped process_functions function_ids
    process_imports declared_for transform_fn transform_fns transform_local_fn contains returns_ref
    detect_instr detect_instrs detect_body
processed = refl

issued_imports : All (λ i. ItemIssued (laws.Issued before_) i.item) before_.imports
issued_imports = (omega arith, (omega arith, tt))

process-is_surrogate_example :
    (((arenas.remove_raw section_name before_.customs).0 ≡ none)
      × (after_ ≡ record before_ { customs = (arenas.remove_raw section_name before_.customs).1 }))
    ⊎ ((taken : ExternrefImports × List Import) × (take_imports arenas.import_arena before_.imports
          ≡ ok taken)
        × (funcs_names (is_surrogate taken.0) (is_replaced taken.0) after_.funcs ≡ false))
process-is_surrogate_example =
    process-is_surrogate arenas laws default_options before_ after_ issued_imports processed
