-- ===== src/Processor/Locals/OnePass/Body.antt =====
-- The two passes over a whole body are one pass.
use externref.Prelude.{
  ◌≡◌, refl, sym, ap, ap₂, ◌∙◌, false, List, [], ◌∷◌, map, Option-cases, ◌==◌, Bool-cases, inl, inr,
  All, ==→eq,
}
use mathlib.Core.List.{reverse}
use externref.Processor.Ir.{local_get, Instrs, InstrSeq, InstrLocId, Body, SeqId, LocalId}
use externref.Processor.Locals.{
  NewLocals, Current, Replacements, Visit, pop, take_replacement, count, initial, reversed,
}
use externref.Processor.Locals.Replacement.{count-recorded}
use externref.Processor.Locals.Transform.{replace_seq, replace_local_gets}
use externref.Processor.Locals.OnePass.{direct, of_seq, instrs_of, Left, replace_seq-direct}

-- What stays of a body: the ids of its sequences and the locations of their instructions, in order.
abbrev pub locations_of : Instrs → List InstrLocId
locations_of is = map (λ p. p.1) is

abbrev pub shape_of : Body → List (SeqId × List InstrLocId)
shape_of body = map (λ seq. (seq.id, locations_of seq.instrs)) body

-- No other sequence has the id, and so for all.
abbrev pub Distinct : Body → Type 0
Distinct [] = Unit
Distinct (seq ∷ body) = All (λ other. (other.id == seq.id) ≡ false) body × Distinct body

-- The traversal visits the instructions of each sequence in their order.
abbrev pub VisitsAll : List Visit → Body → Type 0
VisitsAll visits = All (λ seq. instrs_of seq.instrs ≡ of_seq seq.id visits)

take_elsewhere :
    (reps : Replacements) (s s' : SeqId) (k l : LocalId)
    → (s' == s) ≡ false
    → (take_replacement reps s k).1 l s' ≡ reps l s'
unfolding take_replacement
take_elsewhere reps s s' k l h = elim (Option-cases (pop (reps k s))) [
  | inl e ↦ rw (take_replacement, e)
  | inr (v, e) ↦
      rw (take_replacement, e)
        (elim (Bool-cases (l == k)) [
          | inl same ↦ rw (same, h) (ap (λ x. reps x s') (sym (==→eq l k same)))
          | inr differs ↦ rw differs refl
        ])
]

replace_seq_elsewhere :
    (reps : Replacements) (s s' : SeqId) (l : LocalId) (is : Instrs)
    → (s' == s) ≡ false
    → (replace_seq s reps is).0 l s' ≡ reps l s'
unfolding replace_seq
replace_seq_elsewhere reps s s' l [] h = refl
replace_seq_elsewhere reps s s' l ((local_get k, loc) ∷ is) h =
    replace_seq_elsewhere (take_replacement reps s k).1 s s' l is h ∙ take_elsewhere reps s s' k l h
replace_seq_elsewhere reps s s' l ((_, loc) ∷ is) h = replace_seq_elsewhere reps s s' l is h

All-Left :
    (new : NewLocals) (current : Current) (s : SeqId) (reps reps' : Replacements)
    (visits : List Visit) (body : Body)
    → ((s' : SeqId) (l : LocalId) → (s' == s) ≡ false → reps' l s' ≡ reps l s')
    → All (λ other. (other.id == s) ≡ false) body
    → All (λ seq. Left new current seq.id reps visits) body
    → All (λ seq. Left new current seq.id reps' visits) body
All-Left new current s reps reps' visits [] same apart left = tt
All-Left new current s reps reps' visits (seq ∷ body) same apart left = (
  λ l. same seq.id l apart.0 ∙ left.0 l,
  All-Left new current s reps reps' visits body same apart.1 left.1,
)

locations_of-replace_seq :
    (s : SeqId) (reps : Replacements) (is : Instrs)
    → locations_of (replace_seq s reps is).1 ≡ locations_of is
unfolding replace_seq
locations_of-replace_seq s reps [] = refl
locations_of-replace_seq s reps ((local_get k, loc) ∷ is) =
    ap (◌∷◌ loc) (locations_of-replace_seq s (take_replacement reps s k).1 is)
locations_of-replace_seq s reps ((_, loc) ∷ is) = ap (◌∷◌ loc) (locations_of-replace_seq s reps is)

shape_of-replace_local_gets :
    (reps : Replacements) (body : Body) → shape_of (replace_local_gets reps body) ≡ shape_of body
unfolding replace_local_gets
shape_of-replace_local_gets reps [] = refl
shape_of-replace_local_gets reps (seq ∷ body) =
    ap₂ ◌∷◌ (ap (λ locs. (seq.id, locs)) (locations_of-replace_seq seq.id reps seq.instrs))
      (shape_of-replace_local_gets (replace_seq seq.id reps seq.instrs).0 body)

body-direct :
    (new : NewLocals) (current : Current) (reps : Replacements) (visits : List Visit) (body : Body)
    → Distinct body
    → All (λ seq. Left new current seq.id reps visits) body
    → VisitsAll visits body
    → VisitsAll (direct new current visits) (replace_local_gets reps body)
unfolding replace_local_gets
body-direct new current reps visits [] apart left seen = tt
body-direct new current reps visits (seq ∷ body) apart left seen =
    let reps' = (replace_seq seq.id reps seq.instrs).0 in
    (
      replace_seq-direct new seq.id visits current reps seq.instrs left.0 seen.0,
      body-direct new current reps' visits body apart.1
          (All-Left new current seq.id reps reps' visits body
            (λ s' l h. replace_seq_elsewhere reps seq.id s' l seq.instrs h) apart.0 left.1)
          seen.1,
    )

All-any : (P : InstrSeq → Type 0) (body : Body) → ((seq : InstrSeq) → P seq) → All P body
All-any P [] h = tt
All-any P (seq ∷ body) h = (h seq, All-any P body h)

-- `LocalReplacementCounter` over one traversal, then `LocalReplacer` over a body whose sequences have ids of their
-- own, each visited by that traversal in its order. Then the body that comes out has the same sequences, by their ids
-- and the locations of their instructions, in the same order; and in each of them each read of a tracked local has
-- the replacement that was current at the read in the first traversal, as if one pass had replaced it, and all
-- other instructions stay.
pub replace_local_gets-one_pass :
    (new : NewLocals) (args : List LocalId) (counted : List Visit) (body : Body)
    → Distinct body
    → VisitsAll counted body
    → (shape_of
          (replace_local_gets (reversed (count new (initial new args) (λ l s. []) counted)) body)
        ≡ shape_of body)
      × VisitsAll
          (direct new (initial new args) counted)
          (replace_local_gets (reversed (count new (initial new args) (λ l s. []) counted)) body)
unfolding reversed
replace_local_gets-one_pass new args counted body apart seen =
    let reps = reversed (count new (initial new args) (λ l s. []) counted) in
    (
      shape_of-replace_local_gets reps body,
      body-direct new (initial new args) reps counted body apart
          (All-any _ body (λ seq l.
            ap reverse (count-recorded new (initial new args) (λ l s. []) counted l seq.id)))
          seen,
    )
