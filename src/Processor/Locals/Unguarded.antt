-- ===== src/Processor/Locals/Unguarded.antt =====
-- When `transform_local_fn` finds a local to replace, and that it changes nothing where it finds none.
use externref.Prelude.{
  ℕ, ◌<◌, ◌≡◌, refl, sym, ap, ap₂, subst, ◌∙◌, Bool, true, false, ◌&&◌, ◌||◌, List, [], ◌∷◌, Option,
  ◌==◌, ne→==, if◌then◌else◌, length, Outcome, ok, err, arith,
}
use externref.Processor.Ir.{Instr, local_set, local_tee, Instrs, Body, SeqId, FunctionId}
use externref.Processor.Error.{Error, unexpected_call}
use externref.Processor.Locals.{
  Detected, replace_local, detect_instr, detect_instrs, detect_body, returns_ref, Visit,
}
use externref.Processor.Locals.Transform.{
  LocalFunction, function_offset, first_offset, transform_local_fn,
}

abbrev pub is_tee : Instr → Bool
is_tee (local_tee l) = true
is_tee _ = false

abbrev pub is_store : Instr → Bool
is_store (local_set l) = true
is_store (local_tee l) = true
is_store _ = false

-- Is a result of a function that returns a reference stored directly behind the call? `flag` says whether
-- the instructions stand behind such a call.
unfoldable pub stores_ref : List FunctionId → Bool → Instrs → Bool
stores_ref fns flag [] = false
stores_ref fns flag ((i, loc) ∷ rest) =
    flag && is_store i || stores_ref fns (flag && is_tee i || returns_ref fns i) rest

unfoldable pub body_stores_ref : List FunctionId → Body → Bool
body_stores_ref fns [] = false
body_stores_ref fns (seq ∷ body) = stores_ref fns false seq.instrs || body_stores_ref fns body

-- What the detector did: it added locals, or nothing.
abbrev Detection : {A : Type 0} → Bool → Detected → A → Detected × A → Type 0
Detection true d a r = length d.new_locals < length r.0.new_locals
Detection false d a r = (r.0 ≡ d) × (r.1 ≡ a)

Detection-pair :
    {A B C : Type 0} (f : A → B → C) (p q : Bool) (d d₁ d₂ : Detected) (a a' : A) (b b' : B)
    → Detection p d a (d₁, a')
    → Detection q d₁ b (d₂, b')
    → Detection (p || q) d (f a b) (d₂, f a' b')
Detection-pair f true true d d₁ d₂ a a' b b' more again = omega arith
Detection-pair f true false d d₁ d₂ a a' b b' more (r, t) =
    subst (λ e. length d.new_locals < length e.new_locals) (sym r) more
Detection-pair f false true d d₁ d₂ a a' b b' (p, q) more =
    subst (λ e. length e.new_locals < length d₂.new_locals) p more
Detection-pair f false false d d₁ d₂ a a' b b' (p, q) (r, t) = (r ∙ p, ap₂ f q t)

detect_instr_outcome :
    (fns : List FunctionId) (flag : Bool) (d : Detected) (i : Instr)
    → Detection
        (flag && is_store i)
        d
        i
        ((detect_instr fns flag d i).0, (detect_instr fns flag d i).1)
unfolding detect_instr replace_local
detect_instr_outcome fns true d (local_set l) = omega arith
detect_instr_outcome fns true d (local_tee l) = omega arith
detect_instr_outcome fns true d _ = (refl, refl)
detect_instr_outcome fns false d i = (refl, refl)

detect_instr_flag :
    (fns : List FunctionId) (flag : Bool) (d : Detected) (i : Instr)
    → (detect_instr fns flag d i).2 ≡ (flag && is_tee i || returns_ref fns i)
unfolding detect_instr returns_ref
detect_instr_flag fns true d (local_set l) = refl
detect_instr_flag fns true d (local_tee l) = refl
detect_instr_flag fns true d _ = refl
detect_instr_flag fns false d i = refl

detect_instrs_outcome :
    (fns : List FunctionId) (flag : Bool) (d : Detected) (is : Instrs)
    → Detection (stores_ref fns flag is) d is (detect_instrs fns flag d is)
unfolding detect_instrs stores_ref
detect_instrs_outcome fns flag d [] = (refl, refl)
detect_instrs_outcome fns flag d ((i, loc) ∷ rest) =
    let (d₁, i', flag') = detect_instr fns flag d i in
    let rest' = detect_instrs fns flag' d₁ rest in
    Detection-pair (λ (j : Instr) (js : Instrs). (j, loc) ∷ js) (flag && is_store i)
      (stores_ref fns (flag && is_tee i || returns_ref fns i) rest) d d₁ rest'.0 i i' rest rest'.1
      (detect_instr_outcome fns flag d i)
      (subst (λ b. Detection (stores_ref fns b rest) d₁ rest rest') (detect_instr_flag fns flag d i)
        (detect_instrs_outcome fns flag' d₁ rest))

detect_body_outcome :
    (fns : List FunctionId) (d : Detected) (body : Body)
    → Detection (body_stores_ref fns body) d body (detect_body fns d body)
unfolding detect_body body_stores_ref
detect_body_outcome fns d [] = (refl, refl)
detect_body_outcome fns d (seq ∷ body) =
    let first = detect_instrs fns false d seq.instrs in
    let rest = detect_body fns first.0 body in
    Detection-pair (λ (is : Instrs) (b : Body). record seq { instrs = is } ∷ b)
      (stores_ref fns false seq.instrs) (body_stores_ref fns body) d first.0 rest.0 seq.instrs
      first.1 body rest.1 (detect_instrs_outcome fns false d seq.instrs)
      (detect_body_outcome fns first.0 body)

first_offset-detect_instrs :
    (fns : List FunctionId) (flag : Bool) (d : Detected) (is : Instrs)
    → first_offset (detect_instrs fns flag d is).1 ≡ first_offset is
unfolding detect_instrs
first_offset-detect_instrs fns flag d [] = refl
first_offset-detect_instrs fns flag d ((i, loc) ∷ is) = refl

-- The detector changes no location, so the offset is that of the function as it was.
function_offset-detect_body :
    (fns : List FunctionId) (entry : SeqId) (d : Detected) (body : Body)
    → function_offset entry (detect_body fns d body).1 ≡ function_offset entry body
unfolding function_offset detect_body detect_instrs
function_offset-detect_body fns entry d [] = refl
function_offset-detect_body fns entry d (seq ∷ body) =
    ap₂ (λ (a b : Option ℕ). if seq.id == entry then a else b)
      (first_offset-detect_instrs fns false d seq.instrs)
      (function_offset-detect_body fns entry (detect_instrs fns false d seq.instrs).0 body)

unguarded_cases :
    (b : Bool) (next_local : ℕ) (self : LocalFunction) (d : Detected) (body' : Body) (e : Error)
    → Detection b (record { next_local = next_local; new_locals = [] }) self.body (d, body')
    → ◌≡◌ {A = Outcome Error (ℕ × LocalFunction)}
        (if length d.new_locals == 0
          then ok (d.next_local, record self { body = body' })
          else err e)
        (if b then err e else ok (next_local, self))
unguarded_cases true next_local self d body' e more =
    rw (ne→== (length d.new_locals) 0 (omega arith))
unguarded_cases false next_local self d body' e (p, q) = rw (p, q)

-- A function without a guard is never changed: where no result of a function that returns a reference is
-- stored directly behind its call, `transform_local_fn` leaves it as it is and adds no local; else it
-- reports an error with the function's name and the offset of its first instruction, wherever the call is.
pub transform_local_fn-unguarded :
    (in_order : LocalFunction → List Visit) (fns : List FunctionId) (next_local : ℕ)
    (self : LocalFunction)
    → transform_local_fn in_order fns false next_local self ≡ (
        if body_stores_ref fns self.body
        then err (unexpected_call self.name (function_offset self.entry self.body))
        else ok (next_local, self))
unfolding transform_local_fn
transform_local_fn-unguarded in_order fns next_local self =
    let d : Detected = record { next_local = next_local; new_locals = [] } in
    let r = detect_body fns d self.body in
    unguarded_cases (body_stores_ref fns self.body) next_local self r.0 r.1
      (unexpected_call self.name (function_offset self.entry r.1))
      (detect_body_outcome fns d self.body)
    ∙ ap
        (λ (o : Option ℕ).
          if body_stores_ref fns self.body
          then err (unexpected_call self.name o)
          else ok (next_local, self))
        (function_offset-detect_body fns self.entry d self.body)

unchanged :
    (b : Bool) (next_local : ℕ) (self other : LocalFunction) (d : Detected) (body' : Body)
    (e : Error)
    → (d ≡ record { next_local = next_local; new_locals = [] }) × (body' ≡ self.body)
    → ◌≡◌ {A = Outcome Error (ℕ × LocalFunction)}
        (if length d.new_locals == 0
          then ok (d.next_local, record self { body = body' })
          else if b
          then ok (d.next_local, other)
          else err e)
        (ok (next_local, self))
unchanged b next_local self other d body' e (p, q) = rw (p, q)

-- Where no result of a function that returns a reference is stored directly behind its call,
-- `transform_local_fn` leaves a function as it is, guarded or not.
pub transform_local_fn-body_stores_ref :
    (in_order : LocalFunction → List Visit) (fns : List FunctionId) (guarded : Bool)
    (next_local : ℕ) (self : LocalFunction)
    → body_stores_ref fns self.body ≡ false
    → transform_local_fn in_order fns guarded next_local self ≡ ok (next_local, self)
unfolding transform_local_fn
transform_local_fn-body_stores_ref in_order fns guarded next_local self h =
    let d : Detected = record { next_local = next_local; new_locals = [] } in
    let r = detect_body fns d self.body in
    unchanged guarded next_local self _ r.0 r.1 _
      (subst (λ b. Detection b d self.body r) h (detect_body_outcome fns d self.body))
