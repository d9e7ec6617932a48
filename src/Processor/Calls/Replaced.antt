-- ===== src/Processor/Calls/Replaced.antt =====
-- After the replacement no function of the surrogate module is called.
use externref.Prelude.{
  ℕ, ◌+◌, ◌≡◌, refl, subst, Bool, true, false, [], ◌∷◌, none, some, ◌==◌, if◌then◌else◌, arith,
  Option-cases, Bool-cases, inl, inr, All,
}
use externref.Processor.Ir.{Instr, call, ref_func, Instrs, Body, FunctionId}
use externref.Processor.Calls.{
  FnMapping, mapped, visit_function_id, visit_instr, replace_instrs, replace_body,
}

abbrev pub is_key : FnMapping → FunctionId → Bool
is_key m f = elim (mapped m f) [ none ↦ false | some v ↦ true ]

-- Does an instruction name a function of the map?
unfoldable pub uses_old : FnMapping → Instr → Bool
uses_old m (call f) = is_key m f
uses_old m (ref_func f) = is_key m f
uses_old m i = false

unfoldable pub count_old : FnMapping → Instrs → ℕ
count_old m [] = 0
count_old m ((i, loc) ∷ rest) = (if uses_old m i then 1 else 0) + count_old m rest

unfoldable pub count_old_body : FnMapping → Body → ℕ
count_old_body m [] = 0
count_old_body m (seq ∷ body) = count_old m seq.instrs + count_old_body m body

-- The new functions are not among the old ones.
abbrev pub NewIds : FnMapping → Type 0
NewIds m = All (λ p. mapped m p.1 ≡ none) m

mapped-All :
    (P : FunctionId → Type 0) (m : FnMapping) (f v : FunctionId)
    → All (λ p. P p.1) m
    → mapped m f ≡ some v
    → P v
unfolding mapped
mapped-All P [] f v h e = cc
mapped-All P ((k, u) ∷ m) f v (hu, h) e = elim (Bool-cases (k == f)) [
  | inl same ↦ let e' : some u ≡ some v = rw same at e in let eq : u ≡ v = cc in subst P eq hu
  | inr differs ↦ mapped-All P m f v h (rw differs at e)
]

visit_function_id-old :
    (m : FnMapping) (f : FunctionId)
    → NewIds m
    → (is_key m (visit_function_id m f).0 ≡ false)
      × ((visit_function_id m f).1 ≡ (if is_key m f then 1 else 0))
unfolding visit_function_id
visit_function_id-old m f new = elim (Option-cases (mapped m f)) [
  | inl e ↦ ground arith
  | inr (v, e) ↦ ground (arith, mapped-All (λ u. mapped m u ≡ none) m f v new e)
]

visit_instr-old :
    (m : FnMapping) (i : Instr)
    → NewIds m
    → (uses_old m (visit_instr m i).0 ≡ false)
      × ((visit_instr m i).1 ≡ (if uses_old m i then 1 else 0))
unfolding visit_instr uses_old
visit_instr-old m (call f) new = visit_function_id-old m f new
visit_instr-old m (ref_func f) new = visit_function_id-old m f new
visit_instr-old m _ new = (refl, refl)

replace_instrs-old :
    (m : FnMapping) (is : Instrs)
    → NewIds m
    → (count_old m (replace_instrs m is).0 ≡ 0) × ((replace_instrs m is).1 ≡ count_old m is)
unfolding replace_instrs count_old
replace_instrs-old m [] new = (refl, refl)
replace_instrs-old m ((i, loc) ∷ rest) new =
    let (gone, one) = visit_instr-old m i new in
    let (gones, more) = replace_instrs-old m rest new in
    (rw (gone, gones) (omega arith), rw (one, more))

-- If the new functions are not among the replaced ones, then after `replace_calls` no instruction of a
-- body names a replaced function, and the count that it returns is the number of instructions that did.
pub replace_body-old :
    (m : FnMapping) (body : Body)
    → NewIds m
    → (count_old_body m (replace_body m body).0 ≡ 0)
      × ((replace_body m body).1 ≡ count_old_body m body)
unfolding replace_body count_old_body
replace_body-old m [] new = (refl, refl)
replace_body-old m (seq ∷ body) new =
    let (gone, one) = replace_instrs-old m seq.instrs new in
    let (gones, more) = replace_body-old m body new in
    (rw (gone, gones) (omega arith), rw (one, more))
