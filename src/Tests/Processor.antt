-- ===== src/Tests/Processor.antt =====
-- Examples of the processor's passes.
use externref.Prelude.{
  ℕ, ◌≡◌, refl, List, [], ◌∷◌, Option, some, ltb, if◌then◌else◌, ok, err, fault, text,
}
use externref.Signature.Types.{Function, import}
use externref.Signature.Bits.{set_indices, set_indices_from, is_set, test_bit}
use externref.Processor.Ir.{
  i32, f32, extern_ref, call, local_get, local_set, global_set, other, location, default, Body,
}
use externref.Processor.Error.{arg, unexpected_type, incorrect_guard}
use externref.Processor.Guards.{remove_guards}
use externref.Processor.Guards.Placement.{
  body_well_placed, body_has_guard, body_without_guards, remove_guards_lem,
}
use externref.Processor.Calls.{FnMapping, mapped}
use externref.Processor.Calls.Replaced.{NewIds}
use externref.Processor.Types.{
  FuncType, fn_module, is_i32, placement, place, patch_slot, patch_slots, arity, patch_type_inner,
}
use externref.Processor.Types.Patch.{Patched, patch_slot_cases, patch_type_inner-Patched}
use externref.Processor.Locals.{NewLocals, Visit}

abbrev body : Body
body =
    record {
      id = 0;
      instrs =
          (global_set 1, default)
          ∷ (call 3, location 10)
          ∷ (other 0, default)
          ∷ (call 5, default)
          ∷ [];
    }
    ∷ []

remove_guards_lem_example :
    (o : Option ℕ) × (remove_guards 3 (some (text "f")) 0 body ≡ (
      if body_well_placed 3 0 body
      then ok (body_has_guard 3 body, body_without_guards 3 body)
      else err (incorrect_guard (some (text "f")) o)))
remove_guards_lem_example = remove_guards_lem 3 (some (text "f")) 0 body

abbrev mapping : FnMapping
mapping = (5, 8) ∷ []

mapping-NewIds : NewIds mapping
unfolding mapped
mapping-NewIds = (refl, tt)

abbrev show_ : Function
show_ = record {
  kind = import (text "ui");
  name = text "show";
  externrefs = record { bytes = 2 ∷ []; bit_len = 2 };
}

abbrev old_type : FuncType
old_type = record { params = i32 ∷ i32 ∷ []; results = [] }

abbrev new_type : FuncType
new_type = record { params = i32 ∷ extern_ref ∷ []; results = [] }

show-set_indices : set_indices show_.externrefs ≡ ok (1 ∷ [])
unfolding set_indices set_indices_from is_set test_bit
show-set_indices = refl

run_patch : patch_type_inner show_ old_type ≡ ok new_type
unfolding patch_type_inner patch_slots patch_slot placement place is_i32 arity set_indices
    set_indices_from is_set test_bit
run_patch = refl

patch_type_inner-Patched_example : (arity old_type ≡ 2) × Patched old_type (1 ∷ []) new_type
patch_type_inner-Patched_example =
    patch_type_inner-Patched show_ (1 ∷ []) old_type new_type show-set_indices run_patch

abbrev bad_result : FuncType
bad_result = record { params = i32 ∷ []; results = f32 ∷ [] }

slot_of_result : placement bad_result 1 ≡ some f32
unfolding placement
slot_of_result = refl

patch_slot_cases_example : patch_slot show_ 1 bad_result ≡ (
    if is_i32 f32
    then ok (place bad_result 1 extern_ref)
    else if ltb 1 1
    then err (unexpected_type (fn_module show_.kind) show_.name (arg 1) f32)
    else fault)
patch_slot_cases_example = patch_slot_cases show_ 1 bad_result f32 slot_of_result

abbrev new_locals : NewLocals
new_locals = (6, 2) ∷ []

abbrev visits : List Visit
visits = (0, local_set 6) ∷ (0, local_get 2) ∷ (1, local_set 2) ∷ (1, local_get 2) ∷ []
