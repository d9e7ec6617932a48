-- ===== src/Resource/Patched.antt =====
-- The functions that the processor generates implement the interface of `Resource`.
use externref.Prelude.{
  ℕ, ◌<◌, ◌≡◌, refl, sym, ◌∙◌, Bool, [], ◌∷◌, Option, none, some, ◌==◌, ne→==, if◌then◌else◌,
  length, get_elem?, set, arith,
}
use externref.Wasm.{Ref, Table, i32, ref, i32_mod, minus_one, Answer, answer, invoke}
use externref.Patched.{patch_insert_fn, patch_get_fn, patch_drop_fn}
use externref.Patched.Insert.{insert, invoke-insert}
use externref.Patched.Access.{get, drop, hook_calls, invoke-get, invoke-drop}
use externref.Patched.Effects.{insert-Inserted, drop-slots}
use externref.Resource.{Imports}

module _ (grows : ℕ → Bool) (hook : Option ℕ) where
  -- A table has fewer than 2^32 elements, so 2^32 rounds are enough for each call.
  unfoldable pub run_insert : Ref → Table → Answer
  run_insert r t = invoke grows i32_mod patch_insert_fn 1 (ref r ∷ []) t

  run_insert-insert : (r : Ref) (t : Table) → length t < i32_mod → run_insert r t ≡ insert grows r t
  unfolding run_insert
  run_insert-insert r t h = invoke-insert grows i32_mod r t h (omega arith)

  unfoldable pub run_get : ℕ → Table → Answer
  run_get i t = invoke grows i32_mod patch_get_fn 0 (i32 i ∷ []) t

  unfoldable pub run_drop : ℕ → Table → Answer
  run_drop i t = invoke grows i32_mod (patch_drop_fn hook) 0 (i32 i ∷ []) t

  run_insert_null :
      (t : Table) → length t < i32_mod → run_insert none t ≡ answer (i32 minus_one ∷ []) t []
  unfolding insert
  run_insert_null t h = run_insert-insert none t h

  run_get_slot :
      (i : ℕ) (t : Table) (r : Ref)
      → i < minus_one
      → get_elem? t i ≡ some r
      → run_get i t ≡ answer (ref r ∷ []) t []
  unfolding run_get get
  run_get_slot i t r h e =
      invoke-get grows i32_mod i t ∙ rw (get, ne→== i minus_one (omega arith), e)

  run_drop_slot :
      (i : ℕ) (t : Table) (r : Ref)
      → get_elem? t i ≡ some r
      → (t' : Table) × (run_drop i t ≡ answer [] t' (hook_calls hook r))
        × (length t' ≡ length t)
        × ((j : ℕ) → get_elem? t' j ≡ (if j == i then some none else get_elem? t j))
  unfolding run_drop drop
  run_drop_slot i t r e =
      let done : drop hook i t ≡ answer [] (set t i none) (hook_calls hook r) = rw (drop, e) in
      let (_, _, _, len, slots) = drop-slots hook i t (set t i none) [] _ done in
      (set t i none, invoke-drop grows i32_mod hook i t ∙ done, len, slots)

  unfoldable pub patched : Imports
  unfolding run_insert run_get run_drop run_insert_null run_insert-insert run_get_slot run_drop_slot
  patched = record {
    insert = run_insert;
    get = run_get;
    drop = run_drop;
    hook = hook_calls hook;
    insert_null = run_insert_null;
    insert_some = λ r t t' vs calls h e.
        insert-Inserted grows r t t' vs calls h (sym (run_insert-insert (some r) t h) ∙ e);
    get_null = λ t. invoke-get grows i32_mod minus_one t ∙ (unfold get in refl);
    get_slot = run_get_slot;
    drop_slot = run_drop_slot;
  }
