-- ===== src/Tests/Module.antt =====
-- Examples of the passes over the functions of a module.
use externref.Prelude.{
  ◌≡◌, refl, false, List, [], ◌∷◌, none, some, if◌then◌else◌, ok, err, ◌>>=◌, text,
}
use externref.Processor.Ir.{i32, call, local_get, local_set, br, default, location, Instrs, Body}
use externref.Processor.Error.{unexpected_call}
use externref.Processor.Guards.{
  remove_guards, verdict, visit, retain, placement_at, add_placement, placement_le, is_call_to,
  is_global_set,
}
use externref.Processor.Calls.{
  ImportArena, mapped, PatchedFunctions, visit_function_id, visit_instr, replace_instrs,
  replace_body,
}
use externref.Processor.Calls.Replaced.{NewIds}
use externref.Processor.Locals.Transform.{
  LocalFunction, function_offset, replace_seq, replace_local_gets, transform_local_fn,
}
use externref.Processor.Locals.{NewLocals, Visit, initial, count, reversed}
use externref.Processor.Locals.OnePass.{direct, of_seq}
use externref.Processor.Locals.OnePass.Body.{shape_of, VisitsAll, replace_local_gets-one_pass}
use externref.Processor.Locals.Unguarded.{body_stores_ref, transform_local_fn-unguarded}
use externref.Processor.Cloner.{clone_instrs}
use externref.Processor.Cloner.Renamed.{rename_instrs, clone_instrs-replace_seq}
use externref.Processor.Module.{local_fn, Walrus, replace_in, replace_calls}
use externref.Processor.Module.Replaced.{old_calls, has_guards, replace_calls-old}

-- A guard, a call of the reading import, and a local that takes its result.
abbrev reader : LocalFunction
reader = record {
  name = some (text "f");
  type_ = record { params = i32 ∷ []; results = [] };
  args = 0 ∷ [];
  entry = 0;
  body =
      record {
        id = 0;
        instrs =
            (call 3, location 10)
            ∷ (local_get 0, default)
            ∷ (call 5, default)
            ∷ (local_set 1, default)
            ∷ [];
      }
      ∷ [];
}

abbrev reader_after : LocalFunction
reader_after = record reader {
  body =
      record {
        id = 0;
        instrs = (local_get 0, default) ∷ (call 8, default) ∷ (local_set 1, default) ∷ [];
      }
      ∷ [];
}

abbrev fns : PatchedFunctions
fns = record { fn_mapping = (5, 8) ∷ []; get_ref_id = some 8; guard_id = some 3 }

fns-NewIds : NewIds fns.fn_mapping
unfolding mapped
fns-NewIds = (refl, tt)

run_replace_calls :
    replace_calls fns ((6, local_fn reader) ∷ []) ≡ ok ((6, local_fn reader_after) ∷ [], 1, 6 ∷ [])
unfolding replace_calls replace_in replace_body replace_instrs visit_instr visit_function_id mapped
    remove_guards verdict visit retain placement_at add_placement placement_le is_call_to
    is_global_set
run_replace_calls = refl

replace_calls-old_example :
    (1 ≡ old_calls fns.fn_mapping ((6, local_fn reader) ∷ []))
    × (old_calls fns.fn_mapping ((6, local_fn reader_after) ∷ []) ≡ 0)
    × (has_guards (some 3) ((6, local_fn reader_after) ∷ []) ≡ false)
replace_calls-old_example =
    replace_calls-old fns ((6, local_fn reader) ∷ []) ((6, local_fn reader_after) ∷ []) 1 (6 ∷ [])
      fns-NewIds run_replace_calls

transform_local_fn-unguarded_example :
    transform_local_fn (λ self. []) (8 ∷ []) false 2 reader_after ≡ (
      if body_stores_ref (8 ∷ []) reader_after.body
      then err (unexpected_call (some (text "f")) (function_offset 0 reader_after.body))
      else ok (2, reader_after))
transform_local_fn-unguarded_example =
    transform_local_fn-unguarded (λ self. []) (8 ∷ []) 2 reader_after

abbrev walrus : Walrus
walrus = record {
  in_order = λ self. [];
  started = λ self. 0 ∷ [];
  func_body = 0;
  dangling = λ n. n;
}

abbrev arena : ImportArena
arena = record { find = λ m n imports. none; delete = λ m n imports. imports }

abbrev no_get : PatchedFunctions
no_get = record { fn_mapping = []; get_ref_id = none; guard_id = some 3 }

abbrev jumps : Instrs
jumps = (local_get 0, default) ∷ (br 0, default) ∷ []

clone_instrs-replace_seq_example :
    clone_instrs ((0, 4) ∷ []) 0 (λ l s. some 7 ∷ []) jumps
    ≡ (rename_instrs ((0, 4) ∷ []) jumps >>= λ is. ok (replace_seq 0 (λ l s. some 7 ∷ []) is))
clone_instrs-replace_seq_example =
    clone_instrs-replace_seq ((0, 4) ∷ []) 0 (λ l s. some 7 ∷ []) jumps

-- Two sequences, one inside the other.
abbrev nested : Body
nested =
    record {
      id = 0;
      instrs = (local_get 0, default) ∷ ((local_set 4, default) ∷ ((local_get 0, default) ∷ []));
    }
    ∷ (record { id = 1; instrs = (local_get 0, default) ∷ [] } ∷ [])

abbrev nested_visits : List Visit
nested_visits = (0, local_get 0) ∷ ((1, local_get 0) ∷ ((0, local_set 4) ∷ ((0, local_get 0) ∷ [])))

nested-VisitsAll : VisitsAll nested_visits nested
unfolding of_seq
nested-VisitsAll = (refl, (refl, tt))

abbrev nested_locals : NewLocals
nested_locals = (4, 0) ∷ []

replace_local_gets-one_pass_example :
    (shape_of (
        replace_local_gets
          (reversed (count nested_locals (initial nested_locals []) (λ l s. []) nested_visits))
          nested)
      ≡ shape_of nested)
    × VisitsAll (direct nested_locals (initial nested_locals []) nested_visits) (
        replace_local_gets
          (reversed (count nested_locals (initial nested_locals []) (λ l s. []) nested_visits))
          nested)
replace_local_gets-one_pass_example =
    replace_local_gets-one_pass nested_locals [] nested_visits nested ((refl, tt), (tt, tt))
      nested-VisitsAll
