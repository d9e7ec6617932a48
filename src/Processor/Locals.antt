-- ===== src/Processor/Locals.antt =====
-- The locals of crates/lib/src/processor/state.rs: `RefCallDetector`, `LocalReplacementCounter`,
-- `LocalReplacer`. A visit is an instruction with the sequence that it stands in, which is the one on
-- top of the visitor's `current_seqs`; the traversals of walrus enter as the lists of their visits.
pub mod Replacement
pub mod Transform
pub mod Unguarded
pub mod OnePass
use externref.Prelude.{
  ℕ, zero, suc, ◌+◌, Bool, true, false, ◌&&◌, ◌||◌, List, [], ◌∷◌, ◌++◌, map, Option, none, some,
  ◌==◌, if◌then◌else◌,
}
use mathlib.Core.List.{reverse}
use externref.Processor.Ir.{
  Instr, call, local_get, local_set, local_tee, InstrLocId, Instrs, InstrSeq, Body, SeqId, LocalId,
  FunctionId,
}

-- `HashMap<LocalId, LocalId>` from a new local to the old one.
abbrev pub NewLocals : Type 0
NewLocals = List (LocalId × LocalId)

unfoldable pub old_of : NewLocals → LocalId → Option LocalId
old_of [] l = none
old_of ((n, o) ∷ new) l = if n == l then some o else old_of new l

unfoldable pub contains : List FunctionId → FunctionId → Bool
contains [] f = false
contains (g ∷ fs) f = (g == f) || contains fs f

-- `RefCallDetector::returns_ref`
unfoldable pub returns_ref : List FunctionId → Instr → Bool
returns_ref fns (call f) = contains fns f
returns_ref fns _ = false

-- The detector's locals: the id that `ModuleLocals::add` gives next, and the new locals so far.
pub record Detected : Type 0 where
  pub next_local : LocalId
  pub new_locals : NewLocals

-- `replace_local`: the new local is the one that is added.
unfoldable pub replace_local : Detected → LocalId → Detected
replace_local d l = record {
  next_local = d.next_local + 1;
  new_locals = (d.next_local, l) ∷ d.new_locals;
}

-- One instruction of the loop of `start_instr_seq_mut`: the state, the instruction, the flag.
unfoldable pub detect_instr : List FunctionId → Bool → Detected → Instr → Detected × Instr × Bool
unfolding replace_local
detect_instr fns true d (local_set l) = (replace_local d l, local_set d.next_local, false)
detect_instr fns true d (local_tee l) = (replace_local d l, local_tee d.next_local, true)
detect_instr fns flag d i = (d, i, returns_ref fns i)

unfoldable pub detect_instrs : List FunctionId → Bool → Detected → Instrs → Detected × Instrs
detect_instrs fns flag d [] = (d, [])
detect_instrs fns flag d ((i, loc) ∷ rest) =
    let (d', i', flag') = detect_instr fns flag d i in
    let (d'', rest') = detect_instrs fns flag' d' rest in (d'', (i', loc) ∷ rest')

unfoldable pub detect_body : List FunctionId → Detected → Body → Detected × Body
detect_body fns d [] = (d, [])
detect_body fns d (seq ∷ body) =
    let (d', instrs') = detect_instrs fns false d seq.instrs in
    let (d'', body') = detect_body fns d' body in (d'', record seq { instrs = instrs' } ∷ body')

-- The keys of the counter's map of `LocalState`s: the old locals. They do not change after `new`.
unfoldable pub tracked : NewLocals → LocalId → Bool
tracked [] l = false
tracked ((n, o) ∷ new) l = (o == l) || tracked new l

-- The two fields of the `LocalState`s: `current_replacement`, and `replacements` by sequence.
abbrev pub Current : Type 0
Current = LocalId → Option LocalId

abbrev pub Replacements : Type 0
Replacements = LocalId → SeqId → List (Option LocalId)

abbrev pub update {ℓ} : {A : Type ℓ} → (ℕ → A) → ℕ → A → ℕ → A
update f k a x = if x == k then a else f x

-- `LocalReplacementCounter::new`: each of the new arguments replaces its old local from the start.
unfoldable pub initial : NewLocals → List LocalId → Current
initial new [] = λ l. none
initial new (a ∷ args) = elim (old_of new a) [
  | none ↦ initial new args
  | some o ↦ update (initial new args) o (some a)
]

unfoldable pub visit_assignment : NewLocals → Current → LocalId → Current
visit_assignment new current l =
    if tracked new l
    then update current l none
    else elim (old_of new l) [ none ↦ current | some o ↦ update current o (some l) ]

abbrev pub Visit : Type 0
Visit = SeqId × Instr

abbrev pub push : Replacements → LocalId → SeqId → Option LocalId → Replacements
push reps l s c = update reps l (update (reps l) s (reps l s ++ (c ∷ [])))

-- The counter's visits of `local.get`, `local.set` and `local.tee`.
unfoldable pub count : NewLocals → Current → Replacements → List Visit → Replacements
count new current reps [] = reps
count new current reps ((s, local_get l) ∷ visits) =
    count new current (if tracked new l then push reps l s (current l) else reps) visits
count new current reps ((s, local_set l) ∷ visits) =
    count new (visit_assignment new current l) reps visits
count new current reps ((s, local_tee l) ∷ visits) =
    count new (visit_assignment new current l) reps visits
count new current reps (v ∷ visits) = count new current reps visits

-- `Vec::pop`
unfoldable pub pop {ℓ} : {A : Type ℓ} → List A → Option (A × List A)
pop [] = none
pop (a ∷ as_) = elim (pop as_) [ none ↦ some (a, []) | some (b, bs) ↦ some (b, a ∷ bs) ]

-- `LocalReplacer::from`: the replacements in reverse.
unfoldable pub reversed : Replacements → Replacements
reversed reps l s = reverse (reps l s)

unfoldable pub take_replacement : Replacements → SeqId → LocalId → Option LocalId × Replacements
take_replacement reps s l = elim (pop (reps l s)) [
  | none ↦ (none, reps)
  | some (c, rest) ↦ (c, update reps l (update (reps l) s rest))
]

abbrev pub or_else : Option LocalId → LocalId → LocalId
or_else none l = l
or_else (some r) l = r

-- `LocalReplacer` on its visits.
unfoldable pub replace : Replacements → List Visit → List Visit
replace reps [] = []
replace reps ((s, local_get l) ∷ visits) =
    let (r, reps') = take_replacement reps s l in
    (s, local_get (or_else r l)) ∷ replace reps' visits
replace reps (v ∷ visits) = v ∷ replace reps visits

-- Counting over the visits of one traversal, then replacing over the visits of another.
unfoldable pub replace_locals : NewLocals → List LocalId → List Visit → List Visit → List Visit
replace_locals new args counted visited =
    replace (reversed (count new (initial new args) (λ l s. []) counted)) visited
