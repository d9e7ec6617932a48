-- ===== src/Processor/Guards/Placement.antt =====
-- Which guards are accepted, and that all of them are removed.
use externref.Prelude.{
  ℕ, ◌+◌, ◌≡◌, refl, ap, ap₂, ◌∙◌, Bool, true, false, ◌&&◌, ◌||◌, not, [], ◌∷◌, Option, none, some,
  ◌==◌, if◌then◌else◌, ok, err, Str, arith, Bool-cases, inl, inr,
}
use externref.Processor.Ir.{Instr, Instrs, Body, SeqId, FunctionId, get_offset}
use externref.Processor.Error.{incorrect_guard}
use externref.Processor.Guards.{
  GuardPlacement, correct, incorrect, placement_le, add_placement, offset_le, is_call_to,
  is_global_set, placement_at, retain, visit, verdict, remove_guards,
}

-- The instructions that are no guard.
unfoldable pub without_guards : FunctionId → Instrs → Instrs
without_guards guard [] = []
without_guards guard ((i, loc) ∷ rest) =
    let rest' = without_guards guard rest in if is_call_to guard i then rest' else (i, loc) ∷ rest'

unfoldable pub has_guard : FunctionId → Instrs → Bool
has_guard guard [] = false
has_guard guard ((i, loc) ∷ rest) = is_call_to guard i || has_guard guard rest

-- A guard may stand where nothing stands before it, or a write of a global.
unfoldable pub may_follow : Option Instr → Bool
may_follow none = true
may_follow (some i) = is_global_set i

-- Each guard stands in the entry sequence, and where it may.
unfoldable pub well_placed : FunctionId → Bool → Option Instr → Instrs → Bool
well_placed guard is_entry before [] = true
well_placed guard is_entry before ((i, loc) ∷ rest) =
    (not (is_call_to guard i) || (is_entry && may_follow before))
    && well_placed guard is_entry (some i) rest

unfoldable pub body_without_guards : FunctionId → Body → Body
body_without_guards guard [] = []
body_without_guards guard (seq ∷ body) =
    record seq { instrs = without_guards guard seq.instrs } ∷ body_without_guards guard body

unfoldable pub body_has_guard : FunctionId → Body → Bool
body_has_guard guard [] = false
body_has_guard guard (seq ∷ body) = has_guard guard seq.instrs || body_has_guard guard body

unfoldable pub body_well_placed : FunctionId → SeqId → Body → Bool
body_well_placed guard entry [] = true
body_well_placed guard entry (seq ∷ body) =
    well_placed guard (seq.id == entry) none seq.instrs && body_well_placed guard entry body

-- What a placement says: a guard was seen, and none of them was misplaced.
abbrev seen : Option GuardPlacement → Bool
seen none = false
seen (some p) = true

abbrev fine : Option GuardPlacement → Bool
fine none = true
fine (some correct) = true
fine (some (incorrect o)) = false

-- The index and the flag agree with the instruction before.
abbrev Agrees : Option Instr → ℕ → Bool → Type 0
Agrees before idx flag = ((idx == 0) || flag) ≡ may_follow before

seen-add_placement :
    (self : Option GuardPlacement) (p : GuardPlacement) → seen (add_placement self p) ≡ true
unfolding add_placement placement_le offset_le
seen-add_placement self p = ground arith

fine-add_placement :
    (self : Option GuardPlacement) (p : GuardPlacement)
    → fine (add_placement self p) ≡ (fine self && fine (some p))
unfolding add_placement placement_le offset_le
fine-add_placement self p = ground arith

Agrees-next : (i : Instr) (idx : ℕ) → Agrees (some i) (idx + 1) (is_global_set i)
unfolding may_follow
Agrees-next i idx = ground arith

retain-instrs :
    (guard : FunctionId) (entry : Bool) (idx : ℕ) (flag : Bool) (self : Option GuardPlacement)
    (is : Instrs)
    → (retain guard entry idx flag self is).1 ≡ without_guards guard is
unfolding retain without_guards placement_at
retain-instrs guard entry idx flag self [] = refl
retain-instrs guard entry idx flag self ((i, loc) ∷ rest) = elim (Bool-cases (is_call_to guard i)) [
  | inl yes_ ↦ rw yes_ (retain-instrs guard entry (idx + 1) (is_global_set i) _ rest)
  | inr no_ ↦
      rw no_ (ap (◌∷◌ (i, loc)) (retain-instrs guard entry (idx + 1) (is_global_set i) _ rest))
]

or_true : (a b : Bool) → a ≡ true → (a || b) ≡ true
or_true a b e = ground arith

retain-seen :
    (guard : FunctionId) (entry : Bool) (idx : ℕ) (flag : Bool) (self : Option GuardPlacement)
    (is : Instrs)
    → seen (retain guard entry idx flag self is).0 ≡ (seen self || has_guard guard is)
unfolding retain has_guard placement_at
retain-seen guard entry idx flag self [] = ground arith
retain-seen guard entry idx flag self ((i, loc) ∷ rest) = elim (Bool-cases (is_call_to guard i)) [
  | inl yes_ ↦
      let p : GuardPlacement =
        if entry && (idx == 0 || flag) then correct else incorrect (get_offset loc) in
      rw yes_ (
        retain-seen guard entry (idx + 1) (is_global_set i) (add_placement self p) rest
        ∙ ground (arith, seen-add_placement self p))
  | inr no_ ↦ rw no_ (retain-seen guard entry (idx + 1) (is_global_set i) self rest)
]

fine_step :
    (self : Option GuardPlacement) (entry agree : Bool) (o : Option ℕ) (rest : Bool)
    → (fine (add_placement self (if entry && agree then correct else incorrect o)) && rest)
      ≡ (fine self && ((entry && agree) && rest))
fine_step self entry agree o rest =
    ap (λ (b : Bool). b && rest)
      (fine-add_placement self (if entry && agree then correct else incorrect o))
    ∙ ground arith

retain-fine :
    (guard : FunctionId) (entry : Bool) (before : Option Instr) (idx : ℕ) (flag : Bool)
    (self : Option GuardPlacement) (is : Instrs)
    → Agrees before idx flag
    → fine (retain guard entry idx flag self is).0
      ≡ (fine self && well_placed guard entry before is)
unfolding retain well_placed placement_at
retain-fine guard entry before idx flag self [] h = ground arith
retain-fine guard entry before idx flag self ((i, loc) ∷ rest) h =
    elim (Bool-cases (is_call_to guard i)) [
      | inl yes_ ↦
          rw (yes_, h)
            (retain-fine guard entry (some i) (idx + 1) (is_global_set i) _ rest (Agrees-next i idx)
              ∙ fine_step self entry (may_follow before) (get_offset loc)
                  (well_placed guard entry (some i) rest))
      | inr no_ ↦ rw no_ (
          retain-fine guard entry (some i) (idx + 1) (is_global_set i) self rest
            (Agrees-next i idx))
    ]

visit-body :
    (guard : FunctionId) (entry : SeqId) (self : Option GuardPlacement) (body : Body)
    → (visit guard entry self body).1 ≡ body_without_guards guard body
unfolding visit body_without_guards
visit-body guard entry self [] = refl
visit-body guard entry self (seq ∷ body) =
    ap₂ (λ (is : Instrs) (b : Body). record seq { instrs = is } ∷ b)
      (retain-instrs guard (seq.id == entry) 0 false self seq.instrs)
      (visit-body guard entry (retain guard (seq.id == entry) 0 false self seq.instrs).0 body)

visit-seen :
    (guard : FunctionId) (entry : SeqId) (self : Option GuardPlacement) (body : Body)
    → seen (visit guard entry self body).0 ≡ (seen self || body_has_guard guard body)
unfolding visit body_has_guard
visit-seen guard entry self [] = ground arith
visit-seen guard entry self (seq ∷ body) =
    visit-seen guard entry (retain guard (seq.id == entry) 0 false self seq.instrs).0 body
    ∙ ap (λ (b : Bool). b || body_has_guard guard body)
        (retain-seen guard (seq.id == entry) 0 false self seq.instrs)
    ∙ ground arith

visit-fine :
    (guard : FunctionId) (entry : SeqId) (self : Option GuardPlacement) (body : Body)
    → fine (visit guard entry self body).0 ≡ (fine self && body_well_placed guard entry body)
unfolding visit body_well_placed may_follow
visit-fine guard entry self [] = ground arith
visit-fine guard entry self (seq ∷ body) =
    visit-fine guard entry (retain guard (seq.id == entry) 0 false self seq.instrs).0 body
    ∙ ap (λ (b : Bool). b && body_well_placed guard entry body)
        (retain-fine guard (seq.id == entry) none 0 false self seq.instrs refl)
    ∙ ground arith

-- The offset that an error names.
abbrev offset_of : Option GuardPlacement → Option ℕ
offset_of (some (incorrect o)) = o
offset_of _ = none

verdict_lem :
    (name : Option Str) (p : Option GuardPlacement) (body : Body)
    → verdict name (p, body)
      ≡ (if fine p then ok (seen p, body) else err (incorrect_guard name (offset_of p)))
unfolding verdict
verdict_lem name none body = refl
verdict_lem name (some correct) body = refl
verdict_lem name (some (incorrect o)) body = refl

-- If every guard of a function stands in its entry sequence, first or directly behind a write of a global,
-- then `remove_guards` removes them all, keeps every other instruction in its place, and answers whether
-- there was one. If some guard stands elsewhere it reports an error that names the function.
pub remove_guards_lem :
    (guard : FunctionId) (name : Option Str) (entry : SeqId) (body : Body)
    → (o : Option ℕ) × (remove_guards guard name entry body ≡ (
        if body_well_placed guard entry body
        then ok (body_has_guard guard body, body_without_guards guard body)
        else err (incorrect_guard name o)))
unfolding remove_guards
remove_guards_lem guard name entry body =
    let p : Option GuardPlacement = (visit guard entry none body).0 in
    (
      offset_of p,
      verdict_lem name p (visit guard entry none body).1
          ∙ rw (
            visit-body guard entry none body,
            visit-seen guard entry none body,
            visit-fine guard entry none body,
          ),
    )

without_guards-none :
    (guard : FunctionId) (is : Instrs) → has_guard guard (without_guards guard is) ≡ false
unfolding has_guard without_guards
without_guards-none guard [] = refl
without_guards-none guard ((i, loc) ∷ rest) = ground (arith, without_guards-none guard rest)

-- No guard is left in what `remove_guards` keeps.
pub body_without_guards-none :
    (guard : FunctionId) (body : Body)
    → body_has_guard guard (body_without_guards guard body) ≡ false
unfolding body_has_guard body_without_guards
body_without_guards-none guard [] = refl
body_without_guards-none guard (seq ∷ body) =
    ground (arith, without_guards-none guard seq.instrs, body_without_guards-none guard body)
