-- ===== src/Processor/Module/Replaced.antt =====
-- What `replace_calls` leaves in a module.
use externref.Prelude.{
  ℕ, ◌+◌, ◌≤◌, ◌≡◌, sym, ap, ◌∙◌, Bool, false, ◌||◌, List, [], ◌∷◌, Option, none, some,
  Option-cases, Bool-cases, inl, inr, Outcome, ok, err, ◌>>=◌, >>=-eq-ok, Str, arith,
}
use externref.Processor.Ir.{Instrs, Body, SeqId, FunctionId}
use externref.Processor.Error.{Error, incorrect_guard}
use externref.Processor.Guards.{remove_guards, is_call_to}
use externref.Processor.Guards.Placement.{
  without_guards, body_without_guards, body_has_guard, body_well_placed, remove_guards_lem,
  body_without_guards-none,
}
use externref.Processor.Calls.{FnMapping, PatchedFunctions, replace_body}
use externref.Processor.Calls.Replaced.{count_old, count_old_body, NewIds, replace_body-old}
use externref.Processor.Locals.Transform.{LocalFunction}
use externref.Processor.Module.{imported_fn, local_fn, Funcs, replace_in, replace_calls, add_id}

-- The instructions of all functions that name a replaced function; and whether there is a guard.
unfoldable pub old_calls : FnMapping → Funcs → ℕ
old_calls m [] = 0
old_calls m ((f, imported_fn t) ∷ funcs) = old_calls m funcs
old_calls m ((f, local_fn self) ∷ funcs) = count_old_body m self.body + old_calls m funcs

abbrev pub guarded_by : Option FunctionId → Body → Bool
guarded_by none body = false
guarded_by (some guard) body = body_has_guard guard body

unfoldable pub has_guards : Option FunctionId → Funcs → Bool
has_guards guard [] = false
has_guards guard ((f, imported_fn t) ∷ funcs) = has_guards guard funcs
has_guards guard ((f, local_fn self) ∷ funcs) = guarded_by guard self.body || has_guards guard funcs

count_old-without_guards :
    (m : FnMapping) (guard : FunctionId) (is : Instrs)
    → count_old m (without_guards guard is) ≤ count_old m is
unfolding count_old without_guards
count_old-without_guards m guard [] = omega arith
count_old-without_guards m guard ((i, loc) ∷ is) = elim (Bool-cases (is_call_to guard i)) [
  | inl yes_ ↦ rw yes_ (omega (arith, count_old-without_guards m guard is))
  | inr no_ ↦ rw no_ (omega (arith, count_old-without_guards m guard is))
]

count_old_body-without_guards :
    (m : FnMapping) (guard : FunctionId) (body : Body)
    → count_old_body m (body_without_guards guard body) ≤ count_old_body m body
unfolding count_old_body body_without_guards
count_old_body-without_guards m guard [] = omega arith
count_old_body-without_guards m guard (seq ∷ body) =
    omega (
      arith,
      count_old-without_guards m guard seq.instrs,
      count_old_body-without_guards m guard body,
    )

remove_guards-ok :
    (guard : FunctionId) (name : Option Str) (entry : SeqId) (body body' : Body) (b : Bool)
    → remove_guards guard name entry body ≡ ok (b, body')
    → body' ≡ body_without_guards guard body
remove_guards-ok guard name entry body body' b e =
    let (o, lem) = remove_guards_lem guard name entry body in
    elim (Bool-cases (body_well_placed guard entry body)) [
      | inl well ↦
          let e' : ◌≡◌ {A = Outcome Error (Bool × Body)}
              (ok (body_has_guard guard body, body_without_guards guard body)) (ok (b, body')) =
            rw well at (sym lem ∙ e) in
          cc
      | inr ill ↦
          let e' : ◌≡◌ {A = Outcome Error (Bool × Body)} (err (incorrect_guard name o))
              (ok (b, body')) =
            rw ill at (sym lem ∙ e) in
          cc
    ]

-- What one function is after `replace_calls`.
record Done (fns : PatchedFunctions) (self self' : LocalFunction) (n : ℕ) : Type 0 where
  counted : n ≡ count_old_body fns.fn_mapping self.body
  replaced : count_old_body fns.fn_mapping self'.body ≡ 0
  unguarded : guarded_by fns.guard_id self'.body ≡ false

same_parts :
    (self : LocalFunction) (body : Body) (k n : ℕ) (c b : Bool) (self' : LocalFunction)
    → ◌≡◌ {A = Outcome Error (LocalFunction × ℕ × Bool)}
        (ok (record self { body = body }, k, c))
        (ok (self', n, b))
    → (body ≡ self'.body) × (k ≡ n)
same_parts self body k n c b self' e =
    let same : ◌≡◌ {A = LocalFunction} (record self { body = body }) self' = cc in
    (ap (λ (f : LocalFunction). f.body) same, cc)

replace_in-Done :
    (fns : PatchedFunctions) (self self' : LocalFunction) (n : ℕ) (b : Bool)
    → NewIds fns.fn_mapping
    → replace_in fns self ≡ ok (self', n, b)
    → Done fns self self' n
unfolding replace_in
replace_in-Done fns self self' n b new e =
    let (gone, all) = replace_body-old fns.fn_mapping self.body new in
    let r = replace_body fns.fn_mapping self.body in
    elim (Option-cases fns.guard_id) [
      | inl h ↦
          let e' : ◌≡◌ {A = Outcome Error (LocalFunction × ℕ × Bool)}
              (ok (record self { body = r.0 }, r.1, false)) (ok (self', n, b)) =
            rw (replace_in, h) at e in
          let (p, q) = same_parts self r.0 r.1 n false b self' e' in
          record {
            counted = sym q ∙ all;
            replaced = ap (count_old_body fns.fn_mapping) (sym p) ∙ gone;
            unguarded = rw h;
          }
      | inr (guard, h) ↦
          let e' : ◌≡◌ {A = Outcome Error (LocalFunction × ℕ × Bool)}
              (remove_guards guard self.name self.entry r.0 >>= λ v.
                ok (record self { body = v.1 }, r.1, v.0))
              (ok (self', n, b)) =
            rw (replace_in, h) at e in
          let ((c, body'), removed, e'') =
            >>=-eq-ok (remove_guards guard self.name self.entry r.0) _ e' in
          let (p, q) = same_parts self body' r.1 n c b self' e'' in
          let kept : self'.body ≡ body_without_guards guard r.0 =
            sym p ∙ remove_guards-ok guard self.name self.entry r.0 body' c removed in
          record {
            counted = sym q ∙ all;
            replaced =
                rw kept
                  (omega (arith, gone, count_old_body-without_guards fns.fn_mapping guard r.0));
            unguarded = rw (h, kept) (body_without_guards-none guard r.0);
          }
    ]

same_result :
    (fs funcs : Funcs) (k n : ℕ) (ids guarded : List FunctionId)
    → ◌≡◌ {A = Outcome Error (Funcs × ℕ × List FunctionId)}
        (ok (fs, k, ids))
        (ok (funcs, n, guarded))
    → (fs ≡ funcs) × (k ≡ n)
same_result fs funcs k n ids guarded e = (cc, cc)

-- If the new functions are not among the replaced ones and `replace_calls` ends without an error, then in the
-- module that it leaves no instruction names a replaced function and none calls the guard, and the count
-- that it returns is the number of instructions that named a replaced function before.
pub replace_calls-old :
    (fns : PatchedFunctions) (funcs funcs' : Funcs) (n : ℕ) (guarded : List FunctionId)
    → NewIds fns.fn_mapping
    → replace_calls fns funcs ≡ ok (funcs', n, guarded)
    → (n ≡ old_calls fns.fn_mapping funcs)
      × (old_calls fns.fn_mapping funcs' ≡ 0)
      × (has_guards fns.guard_id funcs' ≡ false)
unfolding replace_calls old_calls has_guards
replace_calls-old fns [] funcs' n guarded new e =
    let (s, c) = same_result [] funcs' 0 n [] guarded e in (sym c, rw (← s), rw (← s))
replace_calls-old fns ((f, imported_fn t) ∷ funcs) funcs' n guarded new e =
    let ((rest, k, ids), e₁, e₂) = >>=-eq-ok (replace_calls fns funcs) _ e in
    let (p, q, r) = replace_calls-old fns funcs rest k ids new e₁ in
    let (s, c) = same_result ((f, imported_fn t) ∷ rest) funcs' k n ids guarded e₂ in
    (sym c ∙ p, rw (← s) q, rw (← s) r)
replace_calls-old fns ((f, local_fn self) ∷ funcs) funcs' n guarded new e =
    let ((self', k, b), e₁, e₂) = >>=-eq-ok (replace_in fns self) _ e in
    let ((rest, more, ids), e₃, e₄) = >>=-eq-ok (replace_calls fns funcs) _ e₂ in
    let done = replace_in-Done fns self self' k b new e₁ in
    let (p, q, r) = replace_calls-old fns funcs rest more ids new e₃ in
    let (s, c) =
      same_result ((f, local_fn self') ∷ rest) funcs' (k + more) n (add_id b f ids) guarded e₄ in
    (
      omega (arith, c, p, done.counted),
      rw (← s) (omega (arith, done.replaced, q)),
      rw (← s, done.unguarded) r,
    )
