-- ===== src/Processor/Locals/OnePass.antt =====
-- Counting the replacements in one traversal and popping them in another does what one pass over the first
-- traversal would.
pub mod Body
use externref.Prelude.{
  arith, subst, ℕ, ◌≡◌, refl, sym, ap, ap₂, ◌∙◌, Bool, true, false, ◌&&◌, List, [], ◌∷◌, ◌++◌,
  append-nil, map, Option, none, some, ◌==◌, ==_refl, ==→eq, if◌then◌else◌, Bool-cases, inl, inr,
}
use mathlib.Core.List.{reverse, reverse-append}
use externref.Processor.Ir.{
  Instr, local_get, local_set, local_tee, Instrs, InstrLocId, SeqId, LocalId,
}
use externref.Processor.Locals.{
  NewLocals, tracked, Current, Replacements, update, visit_assignment, Visit, pop, take_replacement,
  or_else, count, initial, reversed,
}
use externref.Processor.Locals.Replacement.{recorded, count-recorded}
use externref.Processor.Locals.Transform.{replace_seq}

-- What an instruction does to the current replacements, and what the one pass makes of it.
unfoldable pub next_current : NewLocals → Current → Instr → Current
next_current new current (local_set k) = visit_assignment new current k
next_current new current (local_tee k) = visit_assignment new current k
next_current new current _ = current

unfoldable pub direct_instr : NewLocals → Current → Instr → Instr
direct_instr new current (local_get k) =
    local_get (if tracked new k then or_else (current k) k else k)
direct_instr new current i = i

unfoldable pub direct : NewLocals → Current → List Visit → List Visit
direct new current [] = []
direct new current ((s, i) ∷ visits) =
    (s, direct_instr new current i) ∷ direct new (next_current new current i) visits

-- The instructions of one sequence, in the order of the visits.
unfoldable pub of_seq : SeqId → List Visit → List Instr
of_seq s [] = []
of_seq s ((s', i) ∷ visits) = let rest = of_seq s visits in if s' == s then i ∷ rest else rest

abbrev pub instrs_of : Instrs → List Instr
instrs_of is = map (λ p. p.0) is

abbrev is_get : Instr → Bool
is_get (local_get k) = true
is_get _ = false

module _ (new : NewLocals) where
  recorded_elsewhere :
      (current : Current) (l : LocalId) (s s' : SeqId) (i : Instr) (visits : List Visit)
      → (s == s') ≡ false
      → recorded new current l s ((s', i) ∷ visits)
        ≡ recorded new (next_current new current i) l s visits
  unfolding recorded next_current
  recorded_elsewhere current l s s' (local_get k) visits h = ground arith
  recorded_elsewhere current l s s' (local_set k) visits h = refl
  recorded_elsewhere current l s s' (local_tee k) visits h = refl
  recorded_elsewhere current l s s' _ visits h = refl

  recorded_kept :
      (current : Current) (l : LocalId) (s s' : SeqId) (i : Instr) (visits : List Visit)
      → is_get i ≡ false
      → recorded new current l s ((s', i) ∷ visits)
        ≡ recorded new (next_current new current i) l s visits
  unfolding recorded next_current
  recorded_kept current l s s' (local_get k) visits h = cc
  recorded_kept current l s s' (local_set k) visits h = refl
  recorded_kept current l s s' (local_tee k) visits h = refl
  recorded_kept current l s s' _ visits h = refl

  recorded_untracked :
      (current : Current) (l : LocalId) (s : SeqId) (visits : List Visit)
      → tracked new l ≡ false
      → recorded new current l s visits ≡ []
  unfolding recorded
  recorded_untracked current l s [] h = refl
  recorded_untracked current l s ((s', local_get k) ∷ visits) h = elim (Bool-cases (l == k)) [
    | inr differs ↦ ground (arith, recorded_untracked current l s visits h)
    | inl same ↦
        ground (arith, ap (tracked new) (==→eq l k same), recorded_untracked current l s visits h)
  ]
  recorded_untracked current l s ((s', local_set k) ∷ visits) h =
      recorded_untracked (visit_assignment new current k) l s visits h
  recorded_untracked current l s ((s', local_tee k) ∷ visits) h =
      recorded_untracked (visit_assignment new current k) l s visits h
  recorded_untracked current l s ((s', _) ∷ visits) h = recorded_untracked current l s visits h

direct_instr_kept :
    (new : NewLocals) (current : Current) (i : Instr)
    → is_get i ≡ false
    → direct_instr new current i ≡ i
unfolding direct_instr
direct_instr_kept new current (local_get k) h = cc
direct_instr_kept new current _ h = refl

replace_seq_kept :
    (s : SeqId) (reps : Replacements) (i : Instr) (loc : InstrLocId) (is : Instrs)
    → is_get i ≡ false
    → instrs_of (replace_seq s reps ((i, loc) ∷ is)).1 ≡ i ∷ instrs_of (replace_seq s reps is).1
unfolding replace_seq
replace_seq_kept s reps (local_get k) loc is h = cc
replace_seq_kept s reps _ loc is h = refl

pop-snoc {ℓ} : {A : Type ℓ} (xs : List A) (x : A) → pop (xs ++ (x ∷ [])) ≡ some (x, xs)
unfolding pop
pop-snoc [] x = refl
pop-snoc (y ∷ xs) x = rw (pop, pop-snoc xs x)

pop-reverse {ℓ} : {A : Type ℓ} (x : A) (xs : List A) → pop (reverse (x ∷ xs)) ≡ some (x, reverse xs)
pop-reverse x xs = rw (reverse-append (x ∷ []) xs) (pop-snoc (reverse xs) x)

-- The replacements that are left for the rest of the visits of a sequence.
abbrev pub Left : NewLocals → Current → SeqId → Replacements → List Visit → Type 0
Left new current s reps visits =
    (l : LocalId) → reps l s ≡ reverse (recorded new current l s visits)

module _ (new : NewLocals) (current : Current) (s : SeqId) (reps : Replacements) (k : LocalId)
    (visits : List Visit) (left : Left new current s reps ((s, local_get k) ∷ visits)) where
  left_after :
      (h : tracked new k ≡ true) (l : LocalId)
      → update reps k (update (reps k) s (reverse (recorded new current k s visits))) l s
        ≡ reverse (recorded new current l s visits)
  unfolding recorded
  left_after h l = elim (Bool-cases (l == k)) [
    | inl same ↦
        rw (same, ==_refl s)
          (ap (λ x. reverse (recorded new current x s visits)) (sym (==→eq l k same)))
    | inr differs ↦ rw differs (left l ∙ rw (h, differs))
  ]

  taken_tracked :
      tracked new k ≡ true
      → (reps' : Replacements) × (take_replacement reps s k ≡ (current k, reps'))
        × Left new current s reps' visits
  unfolding take_replacement recorded
  taken_tracked h =
      let rest : List (Option LocalId) = recorded new current k s visits in
      let e : reps k s ≡ reverse (current k ∷ rest) = left k ∙ rw (h, ==_refl k, ==_refl s) in
      (
        update reps k (update (reps k) s (reverse rest)),
        rw (take_replacement, e, pop-reverse (current k) rest),
        λ l. left_after h l,
      )

  taken_untracked :
      tracked new k ≡ false
      → (take_replacement reps s k ≡ (none, reps)) × Left new current s reps visits
  unfolding take_replacement recorded pop
  taken_untracked h =
      let e : reps k s ≡ [] =
        left k ∙ rw (h) (ap reverse (recorded_untracked new current k s visits h)) in
      (rw (take_replacement, e), λ l. left l ∙ rw h)

same_instr :
    (i j : Instr) (is js : List Instr)
    → ◌≡◌ {A = List Instr} (i ∷ is) (j ∷ js)
    → (i ≡ j) × (is ≡ js)
same_instr i j is js e = (cc, cc)

==_swap : (a b : ℕ) → (a == b) ≡ false → (b == a) ≡ false
==_swap a b h = ground arith

-- The claim for a sequence, and for the visits behind the one that is looked at.
abbrev pub AsDirect : NewLocals → SeqId → List Visit → Type 0
AsDirect new s visits =
    (current : Current) (reps : Replacements) (is : Instrs)
    → Left new current s reps visits
    → instrs_of is ≡ of_seq s visits
    → instrs_of (replace_seq s reps is).1 ≡ of_seq s (direct new current visits)

module _ (new : NewLocals) (s : SeqId) (visits : List Visit) (rest : AsDirect new s visits) where
  kept_here :
      (current : Current) (reps : Replacements) (i : Instr) (loc : InstrLocId) (is : Instrs)
      → is_get i ≡ false
      → Left new current s reps ((s, i) ∷ visits)
      → instrs_of is ≡ of_seq s visits
      → instrs_of (replace_seq s reps ((i, loc) ∷ is)).1
        ≡ direct_instr new current i ∷ of_seq s (direct new (next_current new current i) visits)
  kept_here current reps i loc is h left e =
      replace_seq_kept s reps i loc is h
      ∙ ap₂ (λ (j : Instr) (js : List Instr). j ∷ js) (sym (direct_instr_kept new current i h))
          (rest (next_current new current i) reps is
            (λ l. left l ∙ ap reverse (recorded_kept new current l s s i visits h)) e)

  instr_here :
      (current : Current) (reps : Replacements) (i : Instr) (loc : InstrLocId) (is : Instrs)
      → Left new current s reps ((s, i) ∷ visits)
      → instrs_of is ≡ of_seq s visits
      → instrs_of (replace_seq s reps ((i, loc) ∷ is)).1
        ≡ direct_instr new current i ∷ of_seq s (direct new (next_current new current i) visits)
  unfolding replace_seq direct_instr next_current
  instr_here current reps (local_get k) loc is left e = elim (Bool-cases (tracked new k)) [
    | inl yes_ ↦
        let (reps', taken, left') = taken_tracked new current s reps k visits left yes_ in
        rw (taken, yes_)
          (ap (◌∷◌ (local_get (or_else (current k) k))) (rest current reps' is left' e))
    | inr no_ ↦
        let (taken, left') = taken_untracked new current s reps k visits left no_ in
        rw (taken, no_) (ap (◌∷◌ (local_get k)) (rest current reps is left' e))
  ]
  instr_here current reps _ loc is left e = kept_here current reps _ loc is refl left e

  seq_here :
      (current : Current) (reps : Replacements) (i : Instr) (is : Instrs)
      → Left new current s reps ((s, i) ∷ visits)
      → instrs_of is ≡ i ∷ of_seq s visits
      → instrs_of (replace_seq s reps is).1
        ≡ direct_instr new current i ∷ of_seq s (direct new (next_current new current i) visits)
  seq_here current reps i [] left e = cc
  seq_here current reps i ((j, loc) ∷ is) left e =
      let (p, q) = same_instr j i (instrs_of is) (of_seq s visits) e in
      subst
        (λ h.
          instrs_of (replace_seq s reps ((h, loc) ∷ is)).1
          ≡ direct_instr new current i ∷ of_seq s (direct new (next_current new current i) visits))
        (sym p) (instr_here current reps i loc is left q)

-- One sequence, from any point of the traversal on.
pub replace_seq-direct : (new : NewLocals) (s : SeqId) (visits : List Visit) → AsDirect new s visits
unfolding of_seq direct replace_seq
replace_seq-direct new s [] current reps [] left e = refl
replace_seq-direct new s [] current reps ((j, loc) ∷ is) left e = cc
replace_seq-direct new s ((s', i) ∷ visits) current reps is left e = elim (Bool-cases (s' == s)) [
  | inr other ↦ rw other (
      replace_seq-direct new s visits (next_current new current i) reps is
        (λ l.
          left l ∙ ap reverse (recorded_elsewhere new current l s s' i visits (==_swap s' s other)))
        (rw other at e))
  | inl here_ ↦
      let same : s' ≡ s = ==→eq s' s here_ in
      rw here_ (
        seq_here new s visits (replace_seq-direct new s visits) current reps i is
          (λ l. left l ∙ ap (λ x. reverse (recorded new current l s ((x, i) ∷ visits))) same)
          (rw here_ at e))
]
