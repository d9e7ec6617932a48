-- ===== src/Processor/Cloner/Renamed.antt =====
-- Cloning a sequence is renaming its jumps and replacing its locals, as `LocalReplacer` does in functions that
-- are not exported.
use externref.Prelude.{ℕ, ◌≡◌, refl, sym, ap, [], ◌∷◌, Outcome, ok, err, fault, ◌>>=◌}
use externref.Processor.Ir.{
  Instr, call, ref_func, local_get, local_set, local_tee, global_set, block, loop, br, br_if,
  if_else, br_table, other, Instrs, InstrLocId, SeqId,
}
use externref.Processor.Error.{Error}
use externref.Processor.Locals.{Replacements, take_replacement, or_else}
use externref.Processor.Locals.Transform.{replace_seq}
use externref.Processor.Cloner.{SequenceMapping, renamed, renamed_all, clone_instr, clone_instrs}

-- The jumps of an instruction, and of a sequence, with their new targets.
unfoldable pub rename_instr : SequenceMapping → Instr → Outcome Error Instr
rename_instr m (block s) = do s' ← renamed m s; ok (block s')
rename_instr m (loop s) = do s' ← renamed m s; ok (loop s')
rename_instr m (br s) = do s' ← renamed m s; ok (br s')
rename_instr m (br_if s) = do s' ← renamed m s; ok (br_if s')
rename_instr m (if_else s t) = do s' ← renamed m s; t' ← renamed m t; ok (if_else s' t')
rename_instr m (br_table ss t) = do ss' ← renamed_all m ss; t' ← renamed m t; ok (br_table ss' t')
rename_instr m i = ok i

unfoldable pub rename_instrs : SequenceMapping → Instrs → Outcome Error Instrs
rename_instrs m [] = ok []
rename_instrs m ((i, loc) ∷ rest) = do
  i' ← rename_instr m i
  rest' ← rename_instrs m rest
  ok ((i', loc) ∷ rest')

abbrev replaced :
    SeqId → Replacements → Outcome Error Instrs → Outcome Error (Replacements × Instrs)
replaced s reps r = r >>= λ is. ok (replace_seq s reps is)

abbrev with_state : Replacements → Instr → Outcome Error (Replacements × Instr)
with_state reps i = ok (reps, i)

-- What an instruction is that is no read of a local: the replacer keeps it.
abbrev Kept : SeqId → Replacements → Instr → InstrLocId → Type 0
Kept s reps i loc =
    (is : Instrs)
    → replace_seq s reps ((i, loc) ∷ is)
      ≡ ((replace_seq s reps is).0, (i, loc) ∷ (replace_seq s reps is).1)

module _ (s : SeqId) (loc : InstrLocId) where
  Kept-cons :
      (reps : Replacements) (i : Instr) (c : Outcome Error (Replacements × Instrs))
      (r : Outcome Error Instrs)
      → Kept s reps i loc
      → c ≡ replaced s reps r
      → (c >>= λ x. ok (x.0, (i, loc) ∷ x.1)) ≡ replaced s reps (r >>= λ is. ok ((i, loc) ∷ is))
  Kept-cons reps i c (ok is) keep h = rw h (sym (ap ok (keep is)))
  Kept-cons reps i c (err e) keep h = rw h
  Kept-cons reps i c fault keep h = rw h

  -- The state before a read, and after it.
  read_cons :
      (reps : Replacements) (l : ℕ) (c : Outcome Error (Replacements × Instrs))
      (r : Outcome Error Instrs)
      → c ≡ replaced s (take_replacement reps s l).1 r
      → (c >>= λ x. ok (x.0, (local_get (or_else (take_replacement reps s l).0 l), loc) ∷ x.1))
        ≡ replaced s reps (r >>= λ is. ok ((local_get l, loc) ∷ is))
  unfolding replace_seq
  read_cons reps l c (ok is) h = rw h
  read_cons reps l c (err e) h = rw h
  read_cons reps l c fault h = rw h

  -- One target, and two.
  jump_cons :
      {X : Type 0} (reps : Replacements) (c : Replacements → Outcome Error (Replacements × Instrs))
      (r : Outcome Error Instrs) (f : X → Instr) (o : Outcome Error X)
      → ((x : X) → Kept s reps (f x) loc)
      → c reps ≡ replaced s reps r
      → ((o >>= λ x. with_state reps (f x)) >>= λ p. c p.0 >>= λ x. ok (x.0, (p.1, loc) ∷ x.1))
        ≡ replaced s reps ((o >>= λ x. ok (f x)) >>= λ i. r >>= λ is. ok ((i, loc) ∷ is))
  jump_cons reps c r f (ok x) keep h = Kept-cons reps (f x) (c reps) r (keep x) h
  jump_cons reps c r f (err e) keep h = refl
  jump_cons reps c r f fault keep h = refl

  jumps_cons :
      {X Y : Type 0} (reps : Replacements)
      (c : Replacements → Outcome Error (Replacements × Instrs)) (r : Outcome Error Instrs)
      (f : X → Y → Instr) (o : Outcome Error X) (o' : Outcome Error Y)
      → ((x : X) (y : Y) → Kept s reps (f x y) loc)
      → c reps ≡ replaced s reps r
      → ((o >>= λ x. o' >>= λ y. with_state reps (f x y)) >>= λ p.
          c p.0 >>= λ x. ok (x.0, (p.1, loc) ∷ x.1))
        ≡ replaced s reps
            ((o >>= λ x. o' >>= λ y. ok (f x y)) >>= λ i. r >>= λ is. ok ((i, loc) ∷ is))
  jumps_cons reps c r f (ok x) o' keep h = jump_cons reps c r (f x) o' (keep x) h
  jumps_cons reps c r f (err e) o' keep h = refl
  jumps_cons reps c r f fault o' keep h = refl

-- Cloning a sequence does what the two passes do one after the other: the jumps get their new targets, then
-- `LocalReplacer` visits the sequence. It panics exactly where a target has no new sequence.
pub clone_instrs-replace_seq :
    (m : SequenceMapping) (s : SeqId) (reps : Replacements) (is : Instrs)
    → clone_instrs m s reps is ≡ (rename_instrs m is >>= λ is'. ok (replace_seq s reps is'))
unfolding clone_instrs clone_instr rename_instr rename_instrs replace_seq
clone_instrs-replace_seq m s reps [] = refl
clone_instrs-replace_seq m s reps ((block t, loc) ∷ rest) =
    jump_cons s loc reps (λ q. clone_instrs m s q rest) (rename_instrs m rest) block (renamed m t)
      (λ x is. refl) (clone_instrs-replace_seq m s reps rest)
clone_instrs-replace_seq m s reps ((loop t, loc) ∷ rest) =
    jump_cons s loc reps (λ q. clone_instrs m s q rest) (rename_instrs m rest) loop (renamed m t)
      (λ x is. refl) (clone_instrs-replace_seq m s reps rest)
clone_instrs-replace_seq m s reps ((br t, loc) ∷ rest) =
    jump_cons s loc reps (λ q. clone_instrs m s q rest) (rename_instrs m rest) br (renamed m t)
      (λ x is. refl) (clone_instrs-replace_seq m s reps rest)
clone_instrs-replace_seq m s reps ((br_if t, loc) ∷ rest) =
    jump_cons s loc reps (λ q. clone_instrs m s q rest) (rename_instrs m rest) br_if (renamed m t)
      (λ x is. refl) (clone_instrs-replace_seq m s reps rest)
clone_instrs-replace_seq m s reps ((if_else t u, loc) ∷ rest) =
    jumps_cons s loc reps (λ q. clone_instrs m s q rest) (rename_instrs m rest) if_else
      (renamed m t) (renamed m u) (λ x y is. refl) (clone_instrs-replace_seq m s reps rest)
clone_instrs-replace_seq m s reps ((br_table ts u, loc) ∷ rest) =
    jumps_cons s loc reps (λ q. clone_instrs m s q rest) (rename_instrs m rest) br_table
      (renamed_all m ts) (renamed m u) (λ x y is. refl) (clone_instrs-replace_seq m s reps rest)
clone_instrs-replace_seq m s reps ((local_get l, loc) ∷ rest) =
    read_cons s loc reps l (clone_instrs m s (take_replacement reps s l).1 rest)
      (rename_instrs m rest) (clone_instrs-replace_seq m s (take_replacement reps s l).1 rest)
clone_instrs-replace_seq m s reps ((call k, loc) ∷ rest) =
    Kept-cons s loc reps (call k) (clone_instrs m s reps rest) (rename_instrs m rest) (λ is. refl)
      (clone_instrs-replace_seq m s reps rest)
clone_instrs-replace_seq m s reps ((ref_func k, loc) ∷ rest) =
    Kept-cons s loc reps (ref_func k) (clone_instrs m s reps rest) (rename_instrs m rest)
      (λ is. refl) (clone_instrs-replace_seq m s reps rest)
clone_instrs-replace_seq m s reps ((local_set k, loc) ∷ rest) =
    Kept-cons s loc reps (local_set k) (clone_instrs m s reps rest) (rename_instrs m rest)
      (λ is. refl) (clone_instrs-replace_seq m s reps rest)
clone_instrs-replace_seq m s reps ((local_tee k, loc) ∷ rest) =
    Kept-cons s loc reps (local_tee k) (clone_instrs m s reps rest) (rename_instrs m rest)
      (λ is. refl) (clone_instrs-replace_seq m s reps rest)
clone_instrs-replace_seq m s reps ((global_set k, loc) ∷ rest) =
    Kept-cons s loc reps (global_set k) (clone_instrs m s reps rest) (rename_instrs m rest)
      (λ is. refl) (clone_instrs-replace_seq m s reps rest)
clone_instrs-replace_seq m s reps ((other k, loc) ∷ rest) =
    Kept-cons s loc reps (other k) (clone_instrs m s reps rest) (rename_instrs m rest) (λ is. refl)
      (clone_instrs-replace_seq m s reps rest)
