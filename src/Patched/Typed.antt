-- ===== src/Patched/Typed.antt =====
-- The generated functions and the types with which the processor declares them.
use externref.Prelude.{ℕ, refl, Bool, List, [], ◌∷◌, Option, none, some}
use externref.Wasm.{Code, Ref, Table, i32, ref, invoke}
use externref.Wasm.Typing.{
  Stack, is_label, Typed, Validates, nop, local_get, local_set, i32_const, i32_sub, i32_eq,
  ref_null, ref_is_null, table_size, table_get, table_set, table_grow, call, br, return_,
  unreachable, block, loop, if_else,
}
use externref.Wasm.Safety.{Answers, invoke-Answers}
use externref.Processor.Ir.{ValType}
use externref.Processor.Process.{insert_type, get_type, drop_type}
use externref.Patched.{
  loop_body, create_loop, null_check, find_free, store_value, patch_insert_fn, patch_get_fn,
  patch_drop_fn,
}

-- The locals of the insertion, and its results.
abbrev Γ : Stack
Γ = ValType.extern_ref ∷ ValType.i32 ∷ []

abbrev R : Stack
R = ValType.i32 ∷ []

create_loop-Typed : {Λ : List ℕ} → Typed Γ R (1 ∷ Λ) [] [] create_loop []
unfolding create_loop loop_body is_label
create_loop-Typed =
    loop
      (local_get refl (
        table_get (
          ref_is_null (
            if_else (br refl)
              (local_get refl (
                if_else (local_get refl (i32_const (i32_sub (local_set refl (br refl)))))
                  (table_size (local_set refl (br refl))) nop))
              nop))))
      nop

null_check-Typed :
    (rest : Code) → Typed Γ R [] [] [] rest R → Typed Γ R [] [] [] (null_check rest) R
unfolding null_check
null_check-Typed rest d = local_get refl (ref_is_null (if_else (i32_const return_) nop d))

find_free-Typed : (rest : Code) → Typed Γ R [] [] [] rest R → Typed Γ R [] [] [] (find_free rest) R
unfolding find_free
find_free-Typed rest d = table_size (
    if_else (table_size (i32_const (i32_sub (local_set refl (block create_loop-Typed nop))))) nop d)

store_value-Typed :
    (rest : Code) → Typed Γ R [] [] [] rest R → Typed Γ R [] [] [] (store_value rest) R
unfolding store_value
store_value-Typed rest d = local_get refl (
    table_size (
      i32_eq (
        if_else
          (local_get refl
            (i32_const (table_grow (i32_const (i32_eq (if_else unreachable nop nop))))))
          (local_get refl (local_get refl (table_set nop))) d)))

patch_insert_fn-Validates : Validates insert_type R patch_insert_fn
unfolding patch_insert_fn
patch_insert_fn-Validates =
    null_check-Typed _ (find_free-Typed _ (store_value-Typed _ (local_get refl nop)))

patch_get_fn-Validates : Validates get_type [] patch_get_fn
unfolding patch_get_fn
patch_get_fn-Validates =
    local_get refl
      (i32_const (i32_eq (if_else (ref_null nop) (local_get refl (table_get nop)) nop)))

patch_drop_fn-Validates : (hook : Option ℕ) → Validates drop_type [] (patch_drop_fn hook)
unfolding patch_drop_fn
patch_drop_fn-Validates none = local_get refl (ref_null (table_set nop))
patch_drop_fn-Validates (some f) =
    local_get refl (table_get (call (local_get refl (ref_null (table_set nop)))))

-- Each of the three generated functions validates at the type with which it is declared. So a call of it with
-- arguments of that type, whatever the table, the answers of the embedder and the bound on the rounds, traps, uses
-- up the rounds, or gives results of that type; it never meets operands or a label that it cannot use.
pub patched-Answers :
    (grows : ℕ → Bool) (rounds : ℕ) (hook : Option ℕ) (r : Ref) (i : ℕ) (table : Table)
    → ((Validates insert_type (ValType.i32 ∷ []) patch_insert_fn)
        × Answers insert_type.results (invoke grows rounds patch_insert_fn 1 (ref r ∷ []) table))
      × ((Validates get_type [] patch_get_fn)
          × Answers get_type.results (invoke grows rounds patch_get_fn 0 (i32 i ∷ []) table))
      × ((Validates drop_type [] (patch_drop_fn hook))
          × Answers drop_type.results
              (invoke grows rounds (patch_drop_fn hook) 0 (i32 i ∷ []) table))
patched-Answers grows rounds hook r i table = (
  (
    patch_insert_fn-Validates,
    invoke-Answers grows rounds insert_type 1 _ _ table patch_insert_fn-Validates refl,
  ),
  (
    patch_get_fn-Validates,
    invoke-Answers grows rounds get_type 0 _ _ table patch_get_fn-Validates refl,
  ),
  (
    patch_drop_fn-Validates hook,
    invoke-Answers grows rounds drop_type 0 _ _ table (patch_drop_fn-Validates hook) refl,
  ),
)
