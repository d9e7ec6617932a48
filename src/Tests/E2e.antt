-- ===== src/Tests/E2e.antt =====
-- Runs of the end-to-end exports in a table of one element, with a host that sends one reference.
use externref.Prelude.{ℕ, ◌≡◌, refl, true, [], ◌∷◌, none, some, arith, zero, suc, get_elem?}
use externref.Wasm.{Ref, invoke, exec_table_set, exec_table_grow, exec_call, exec_table_get}
use externref.Patched.{
  patch_insert_fn, patch_drop_fn, patch_get_fn, find_free, store_value, null_check, loop_body,
}
use externref.Patched.Loop.{machine_code}
use externref.Processor.Locals.{pop}
use externref.Resource.{
  Imports, World, Resource, index_of, unit_of, ref_of, insert_externref, drop_externref,
  get_externref, new_non_null, drop, raw,
}
use externref.Resource.Steps.{Owned, head, occupied, taken}
use externref.Resource.Patched.{patched, run_insert, run_drop, run_get}
use externref.Macro.Conversions.{drop_all}
use externref.E2e.{
  test_export_with_casts, Host, swap_remove, inspect_refs, send_message, message_len, collect,
  run_export, test_export, send_and_measure, test_nulls,
}
use externref.E2e.Ends.{Answering, patched-Roomy, test_export-ends}
use externref.E2e.Nulls.{alive, Measuring, test_nulls-ends}
use externref.Tests.Resource.{code}

abbrev len_of : Ref → ℕ
len_of none = 0
len_of (some r) = 4

abbrev host : Host
host = record {
  send_message = λ w r message. some 5;
  message_len = λ w r. len_of r;
  inspect_refs = λ w. true;
}

abbrev sender : Resource
sender = record { id = 0 }

abbrev begun : World
begun = record { table = some 7 ∷ []; calls = [] }

begun-exact : (i : ℕ) → occupied (get_elem? begun.table i) ≡ taken i ((sender, 7) ∷ [])
begun-exact zero = refl
begun-exact (suc i) = ground arith

begun-Owned : Owned (record { world = begun; live = (sender, 7) ∷ [] })
begun-Owned = record {
  held = (record { slot = refl; index = omega arith }, tt);
  distinct = (tt, tt);
  exact = begun-exact;
  bound = omega arith;
}

-- The messages are dropped in the order 0, 2, 1, and the sender last.
abbrev ended : World
ended = record {
  table = none ∷ none ∷ none ∷ none ∷ [];
  calls = (4, some 5) ∷ (4, some 5) ∷ (4, some 5) ∷ (4, some 7) ∷ [];
}

run_test_export : test_export code host sender begun ≡ some (tt, ended)
unfolding test_export run_export collect inspect_refs send_message swap_remove pop raw new_non_null
    drop drop_all insert_externref drop_externref get_externref index_of unit_of ref_of patched
    run_insert run_drop run_get invoke machine_code patch_insert_fn patch_drop_fn patch_get_fn
    null_check find_free loop_body store_value exec_table_set exec_table_get exec_table_grow
    exec_call
run_test_export = refl

answering : Answering host
answering = record { inspects = λ w. refl; sends = λ w r message. (5, refl) }

abbrev roomy_code : Imports
roomy_code = patched (λ n. true) (some 4)

test_export-ends_example :
    ((w' : World) × (test_export roomy_code host sender begun ≡ some (tt, w'))
      × Owned (record { world = w'; live = [] }))
    × ((w' : World) × (test_export_with_casts roomy_code host sender begun ≡ some (tt, w'))
        × Owned (record { world = w'; live = [] }))
test_export-ends_example =
    test_export-ends roomy_code host (patched-Roomy (some 4)) answering sender 7 [] begun
      begun-Owned (omega arith)

abbrev measured : World
measured = record { table = some 7 ∷ none ∷ []; calls = (4, some 5) ∷ [] }

run_test_nulls : test_nulls code host (some sender) begun ≡ some (tt, measured)
unfolding test_nulls send_and_measure send_message message_len raw new_non_null drop
    insert_externref drop_externref get_externref index_of unit_of ref_of patched run_insert
    run_drop run_get invoke machine_code patch_insert_fn patch_drop_fn patch_get_fn null_check
    find_free loop_body store_value exec_table_set exec_table_get exec_table_grow exec_call
run_test_nulls = refl

measuring : Measuring host
measuring = record { sent = λ w q. refl; null = λ w. refl }

test_nulls-ends_example :
    (w' : World) × (test_nulls roomy_code host (some sender) begun ≡ some (tt, w'))
    × Owned (record { world = w'; live = (sender, 7) ∷ [] })
test_nulls-ends_example =
    test_nulls-ends roomy_code host (patched-Roomy (some 4)) answering measuring (some sender)
      ((sender, 7) ∷ []) begun (alive 7 [] (head [])) begun-Owned (omega arith)
