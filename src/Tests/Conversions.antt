-- ===== src/Tests/Conversions.antt =====
-- Examples of the wrappers at run time: a parameter `&Resource<T>`, in a table of three elements.
use externref.Prelude.{
  ℕ, ◌≡◌, refl, true, List, [], ◌∷◌, none, some, Str, text, arith, ◌==◌, inl, inr, Bool-cases,
  ==→eq, ne→==, zero, suc, subst, if◌then◌else◌,
}
use externref.Wasm.{invoke, exec_table_set, exec_table_grow, exec_call}
use externref.Patched.{
  patch_insert_fn, patch_drop_fn, find_free, store_value, null_check, loop_body,
}
use externref.Patched.Loop.{machine_code}
use externref.Resource.{
  World, M, index_of, unit_of, insert_externref, drop_externref, new_non_null, drop, return, go_on,
}
use externref.Resource.Patched.{patched, run_insert, run_drop}
use externref.Macro.Syntax.{lit_str, default_output, visible}
use externref.Macro.Kinds.{
  by_ref, ResourceKind, simple_kind, initialize_for_export, prepare_for_import,
}
use externref.Macro.Function.{Function, default}
use externref.Macro.Wrappers.{kind_of, export_inputs, import_tail, wrap_export, wrap_import}
use externref.Macro.Conversions.{
  Val, extern, simple, other, call_new_non_null, borrow, eval, drop_all, run_args, run_tail,
  run_wrapper,
}
use externref.Macro.Conversions.Types.{
  RustType, extern_ref, not_typed, type_of, is_option_of_mut, conversions_typed,
}
use externref.Macro.Conversions.Released.{SameRefs, is_borrowed}
use externref.Macro.Conversions.Calls.{Passed, Keeps, wrap_export-SameRefs}
use externref.Macro.Conversions.Called.{
  OfTypes, Called, host_values, kinds, wrap_export-host_values,
}
use externref.Macro.Conversions.Passed.{shared, Lent, host_args, wrap_import-host_args}
use externref.Tests.Resource.{code, world, third, third-Holds}
use externref.Tests.Macro.{cr, sig_with, function_with}

abbrev kind : ResourceKind
kind = ResourceKind.simple by_ref

conversions_typed_example :
    (type_of (λ name. extern_ref) (initialize_for_export kind (text "x") cr)
      ≡ RustType.resource kind)
    × (type_of (λ name. RustType.resource kind) (prepare_for_import kind (text "x") cr)
        ≡ (if is_option_of_mut kind then not_typed else extern_ref))
conversions_typed_example =
    conversions_typed kind (text "x") cr (λ name. extern_ref) (λ name. RustType.resource kind) refl
      refl

abbrev self : Function
self = record {
  name = lit_str (text "send");
  arg_count = 2;
  resource_args = (0, kind) ∷ [];
  return_type = default;
  crate_path = cr;
}

-- The one resource argument is the first.
kind_of_self :
    (i : ℕ) (k : ResourceKind) → kind_of self.resource_args i ≡ some k → (i ≡ 0) × (k ≡ kind)
unfolding kind_of
kind_of_self i k h = elim (Bool-cases (0 == i)) [
  | inl first ↦ let e : some kind ≡ some k = rw first at h in (omega (arith, ==→eq 0 i first), cc)
  | inr later ↦ let e : none ≡ some k = rw later at h in cc
]

-- The host passes a reference for each parameter; the function returns at once.
abbrev env : Str → Val
env name = extern (some 5)

abbrev callee : List Val → M Val
callee vs = return (other 0)

kind-borrowed : is_borrowed kind ≡ true
unfolding is_borrowed simple_kind
kind-borrowed = refl

env-Passed : Passed env self.resource_args
env-Passed i k h = let (_, same) = kind_of_self i k h in (rw same kind-borrowed, (some 5, refl))

callee-Keeps : Keeps callee
callee-Keeps vs w w' out h e =
    let same : w ≡ w' = cc in subst (SameRefs w) same (record { refs = λ j. refl; bound = h })

abbrev dropped : World
dropped = record { table = world.table; calls = (4, some 5) ∷ [] }

run_export :
    run_wrapper code env callee (wrap_export self (function_with default_output) none) world
    ≡ some (other 0, dropped)
unfolding run_wrapper wrap_export export_inputs kind_of run_args run_tail eval initialize_for_export
    call_new_non_null borrow drop_all new_non_null drop insert_externref drop_externref index_of
    unit_of patched run_insert run_drop invoke machine_code patch_insert_fn patch_drop_fn null_check
    find_free loop_body store_value exec_table_set exec_table_grow exec_call
run_export = refl

wrap_export-SameRefs_example : SameRefs world dropped
wrap_export-SameRefs_example =
    wrap_export-SameRefs code env self (function_with default_output) none callee world dropped
      (other 0) env-Passed (λ k e. cc) callee-Keeps (omega arith) run_export

env-OfTypes : OfTypes env self.resource_args
unfolding kind_of
env-OfTypes zero = inl (kind, refl, (some 5, refl))
env-OfTypes (suc i) = inr (rw (ne→== 0 (suc i) (omega arith)), tt)

wrap_export-host_values_example :
    Called code env callee
      (host_values env 0 (function_with default_output).sig.inputs)
      (kinds self.resource_args 0 (function_with default_output).sig.inputs)
wrap_export-host_values_example =
    wrap_export-host_values code env self (function_with default_output) none callee world dropped
      (other 0) env-OfTypes (omega arith) run_export

-- A resource is passed to an import.
abbrev lent : Str → Val
lent name = simple by_ref third

lent-Lent : Lent world lent self.resource_args
lent-Lent i k h = let (_, same) = kind_of_self i k h in rw same (shared third 9 third-Holds)

wrap_import-host_args_example :
    run_wrapper code lent callee (wrap_import self (visible 0) (sig_with default_output)).0 world
    ≡ go_on
        (callee (host_args world lent self.resource_args 0 (sig_with default_output).inputs) world)
        (run_tail code (import_tail self.crate_path self.return_type))
wrap_import-host_args_example =
    wrap_import-host_args code world (omega arith) lent self (visible 0) (sig_with default_output)
      callee lent-Lent
