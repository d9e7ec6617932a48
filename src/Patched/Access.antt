-- ===== src/Patched/Access.antt =====
-- The functions that read and drop an element, and how they go together with the insertion.
use externref.Prelude.{
  ℕ, zero, suc, ◌≤◌, ◌<◌, ◌≡◌, Bool, List, [], ◌∷◌, Option, none, some, ◌==◌, lt→ltb, le→ltb, inl,
  inr, if◌then◌else◌, length, get_elem?, set, arith, Bool-cases, Option-cases,
}
use externref.Wasm.{
  Ref, Table, i32, ref, minus_one, and_then, choose, fetch, exec_table_set, exec_call, Answer,
  answer, trapped, invoke,
}
use externref.Patched.{patch_get_fn, patch_drop_fn}
use externref.Patched.Loop.{machine_code}

-- Reading as an operation on the table.
abbrev pub read : Option Ref → Table → Answer
read none t = trapped
read (some r) t = answer (ref r ∷ []) t []

unfoldable pub get : ℕ → Table → Answer
get idx t = if idx == minus_one then answer (ref none ∷ []) t [] else read (get_elem? t idx) t

-- Dropping: the hook, if there is one, is called on the element before it becomes null.
abbrev pub hook_calls : Option ℕ → Ref → List (ℕ × Ref)
hook_calls none r = []
hook_calls (some f) r = (f, r) ∷ []

unfoldable pub drop : Option ℕ → ℕ → Table → Answer
drop hook idx t = elim (get_elem? t idx) [
  | none ↦ trapped
  | some r ↦ answer [] (set t idx none) (hook_calls hook r)
]

-- The generated reading function does what `get` does, on every index and table.
pub invoke-get :
    (grows : ℕ → Bool) (n idx : ℕ) (t : Table)
    → invoke grows n patch_get_fn 0 (i32 idx ∷ []) t ≡ get idx t
unfolding invoke patch_get_fn machine_code get
invoke-get grows n idx t = elim (Bool-cases (idx == minus_one)) [
  | inl null ↦ rw (and_then, choose, null)
  | inr index ↦ elim (Option-cases (get_elem? t idx)) [
    | inl e ↦ rw (and_then, choose, index, e)
    | inr (r, e) ↦ rw (and_then, choose, index, e)
  ]
]

pub slot_lt : (t : Table) (i : ℕ) (r : Ref) → get_elem? t i ≡ some r → i < length t
slot_lt [] i r e = cc
slot_lt (x ∷ t) zero r e = omega arith
slot_lt (x ∷ t) (suc i) r e = omega (arith, slot_lt t i r e)

pub none_ge : (t : Table) (i : ℕ) → get_elem? t i ≡ none → length t ≤ i
none_ge [] i e = omega arith
none_ge (x ∷ t) zero e = cc
none_ge (x ∷ t) (suc i) e = omega (arith, none_ge t i e)

-- The generated dropping function, with a hook and without one, does what `drop` does, on every index and
-- table.
pub invoke-drop :
    (grows : ℕ → Bool) (n : ℕ) (hook : Option ℕ) (idx : ℕ) (t : Table)
    → invoke grows n (patch_drop_fn hook) 0 (i32 idx ∷ []) t ≡ drop hook idx t
unfolding invoke patch_drop_fn machine_code drop exec_table_set exec_call
invoke-drop grows n none idx t = elim (Option-cases (get_elem? t idx)) [
  | inl e ↦ rw (drop, e, and_then, le→ltb idx (length t) (none_ge t idx e))
  | inr (r, e) ↦ rw (drop, e, and_then, lt→ltb idx (length t) (slot_lt t idx r e))
]
invoke-drop grows n (some f) idx t = elim (Option-cases (get_elem? t idx)) [
  | inl e ↦ rw (drop, and_then, fetch, e)
  | inr (r, e) ↦ rw (drop, and_then, fetch, e, lt→ltb idx (length t) (slot_lt t idx r e))
]
