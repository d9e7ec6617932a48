-- ===== src/Tests/Patched.antt =====
-- Examples of the generated functions on a table of three elements, of which the second is null.
use externref.Prelude.{
  inl, ℕ, ◌≡◌, refl, ◌∙◌, Bool, false, ◌&&◌, List, [], ◌∷◌, none, some, ltb, arith,
}
use externref.Wasm.{Ref, Table, i32, ref, invoke, answer}
use externref.Patched.{patch_insert_fn, patch_get_fn, patch_drop_fn}
use externref.Patched.Loop.{search_from, search_below}
use externref.Patched.Slots.{null_at}
use externref.Patched.Insert.{insert, invoke-insert}
use externref.Patched.Access.{get, drop, hook_calls, invoke-get, invoke-drop}
use externref.Patched.Runs.{invoke-Inserted, invoke-answers, invoke-get-insert}
use externref.Patched.Effects.{Inserted}
use externref.Wasm.Typing.{Validates}
use externref.Wasm.Safety.{Answers}
use externref.Processor.Ir.{ValType}
use externref.Processor.Process.{insert_type, get_type, drop_type}
use externref.Patched.Typed.{patched-Answers}

abbrev three : Table
three = some 7 ∷ none ∷ some 9 ∷ []

abbrev grows : ℕ → Bool
grows n = ltb n 8

invoke-insert_example :
    invoke grows 3 patch_insert_fn 1 (ref (some 5) ∷ []) three ≡ insert grows (some 5) three
invoke-insert_example = invoke-insert grows 3 (some 5) three (omega arith) (omega arith)

invoke-get_example : invoke grows 0 patch_get_fn 0 (i32 2 ∷ []) three ≡ get 2 three
invoke-get_example = invoke-get grows 0 2 three

invoke-drop_example :
    invoke grows 0 (patch_drop_fn (some 4)) 0 (i32 2 ∷ []) three ≡ drop (some 4) 2 three
invoke-drop_example = invoke-drop grows 0 (some 4) 2 three

insert_run :
    invoke grows 3 patch_insert_fn 1 (ref (some 5) ∷ []) three ≡ insert grows (some 5) three
insert_run = invoke-insert grows 3 (some 5) three (omega arith) (omega arith)

drop_run : invoke grows 0 (patch_drop_fn (some 4)) 0 (i32 2 ∷ []) three ≡ drop (some 4) 2 three
drop_run = invoke-drop grows 0 (some 4) 2 three

abbrev filled : Table
filled = some 7 ∷ some 5 ∷ some 9 ∷ []

run : insert grows (some 5) three ≡ answer (i32 1 ∷ []) filled []
unfolding insert search_from search_below
run = refl

invoke-Inserted_example :
    (i : ℕ) × (i32 1 ∷ [] ≡ i32 i ∷ [])
    × (◌≡◌ {A = List (ℕ × Ref)} [] [])
    × Inserted 5 three i filled
    × ((j : ℕ) → (null_at three j && ltb i j) ≡ false)
invoke-Inserted_example =
    invoke-Inserted grows 3 5 three filled (i32 1 ∷ []) [] (omega arith) (omega arith)
      (insert_run ∙ run)

invoke-answers_example :
    (i : ℕ) × (t' : Table) × (invoke grows 3 patch_insert_fn 1 (ref (some 5) ∷ []) three
      ≡ answer (i32 i ∷ []) t' [])
invoke-answers_example = invoke-answers grows 3 5 three (omega arith) (omega arith) (inl (1, refl))

invoke-get-insert_example :
    invoke grows 3 patch_get_fn 0 (i32 1 ∷ []) filled ≡ answer (ref (some 5) ∷ []) filled []
invoke-get-insert_example =
    invoke-get-insert grows 3 5 three filled 1 [] (omega arith) (omega arith) (insert_run ∙ run)

abbrev emptied : Table
emptied = some 7 ∷ none ∷ none ∷ []

run_drop : drop (some 4) 2 three ≡ answer [] emptied (hook_calls (some 4) (some 9))
unfolding drop
run_drop = refl

patched-Answers_example :
    ((Validates insert_type (ValType.i32 ∷ []) patch_insert_fn)
      × Answers insert_type.results (invoke grows 3 patch_insert_fn 1 (ref (some 5) ∷ []) three))
    × ((Validates get_type [] patch_get_fn)
        × Answers get_type.results (invoke grows 3 patch_get_fn 0 (i32 2 ∷ []) three))
    × ((Validates drop_type [] (patch_drop_fn (some 4)))
        × Answers drop_type.results (invoke grows 3 (patch_drop_fn (some 4)) 0 (i32 2 ∷ []) three))
patched-Answers_example = patched-Answers grows 3 (some 4) (some 5) 2 three
