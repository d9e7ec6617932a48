-- ===== src/Processor/Locals/Replacement.antt =====
-- What the counter of crates/lib/src/processor/state.rs keeps for `LocalReplacer`: its map from a local
-- and a sequence, against the list for one local and one sequence.
use externref.Prelude.{
  ◌≡◌, refl, sym, ◌∙◌, Bool, true, false, ◌&&◌, List, [], ◌∷◌, ◌++◌, append-nil, append_assoc,
  Option, ◌==◌, if◌then◌else◌, ==→eq, Bool-cases, inl, inr,
}
use externref.Processor.Ir.{local_get, local_set, local_tee, SeqId, LocalId}
use externref.Processor.Locals.{
  NewLocals, tracked, Current, Replacements, visit_assignment, Visit, push, count,
}

-- What the counter records for one local in one sequence.
unfoldable pub recorded : NewLocals → Current → LocalId → SeqId → List Visit → List (Option LocalId)
recorded new current l s [] = []
recorded new current l s ((s', local_get k) ∷ visits) =
    let rest = recorded new current l s visits in
    if tracked new k && (l == k && s == s') then current k ∷ rest else rest
recorded new current l s ((s', local_set k) ∷ visits) =
    recorded new (visit_assignment new current k) l s visits
recorded new current l s ((s', local_tee k) ∷ visits) =
    recorded new (visit_assignment new current k) l s visits
recorded new current l s (v ∷ visits) = recorded new current l s visits

count_push :
    (b : Bool) (reps : Replacements) (l k : LocalId) (s s' : SeqId) (c : Option LocalId)
    (rest : List (Option LocalId))
    → (if b then push reps k s' c else reps) l s ++ rest
      ≡ reps l s ++ (if b && (l == k && s == s') then c ∷ rest else rest)
count_push false reps l k s s' c rest = refl
count_push true reps l k s s' c rest = elim (Bool-cases (l == k)) [
  | inr differs ↦ rw differs
  | inl same ↦ elim (Bool-cases (s == s')) [
    | inr other ↦ rw (same, other, ==→eq l k same)
    | inl here_ ↦
        rw (same, here_, ==→eq l k same, ==→eq s s' here_) (append_assoc (reps k s') (c ∷ []) rest)
  ]
]

-- `count` appends to the list of each local and each sequence what `recorded` gives: for every read of the
-- local in the sequence, when the local is tracked, its replacement at that read.
pub count-recorded :
    (new : NewLocals) (current : Current) (reps : Replacements) (visits : List Visit) (l : LocalId)
    (s : SeqId)
    → count new current reps visits l s ≡ reps l s ++ recorded new current l s visits
unfolding count recorded
count-recorded new current reps [] l s = sym (append-nil (reps l s))
count-recorded new current reps ((s', local_get k) ∷ visits) l s =
    count-recorded new current (if tracked new k then push reps k s' (current k) else reps) visits l
      s
    ∙ count_push (tracked new k) reps l k s s' (current k) (recorded new current l s visits)
count-recorded new current reps ((s', local_set k) ∷ visits) l s =
    count-recorded new (visit_assignment new current k) reps visits l s
count-recorded new current reps ((s', local_tee k) ∷ visits) l s =
    count-recorded new (visit_assignment new current k) reps visits l s
count-recorded new current reps ((s', _) ∷ visits) l s = count-recorded new current reps visits l s
