-- ===== src/Processor/Cloner.antt =====
-- `FunctionCloner` of crates/lib/src/processor/state.rs: an export's code is moved into a new builder,
-- whose sequences have ids of their own.
pub mod Renamed
use externref.Prelude.{
  ℕ, zero, suc, ◌+◌, Bool, true, false, List, [], ◌∷◌, Option, none, some, ◌==◌, if◌then◌else◌,
  Outcome, ok, err, fault, ◌>>=◌, or_fault,
}
use externref.Processor.Ir.{
  Instr, call, ref_func, local_get, local_set, local_tee, global_set, block, loop, br, br_if,
  if_else, br_table, other, Instrs, InstrSeq, Body, SeqId,
}
use externref.Processor.Error.{Error}
use externref.Processor.Locals.{Replacements, take_replacement, or_else}

-- `sequence_mapping`, from the old ids to the new ones. What was inserted last stands first.
abbrev pub SequenceMapping : Type 0
SequenceMapping = List (SeqId × SeqId)

unfoldable pub new_seq : SequenceMapping → SeqId → Option SeqId
new_seq [] s = none
new_seq ((old, new) ∷ m) s = if old == s then some new else new_seq m s

-- `start_instr_seq` on the sequences that `dfs_in_order` starts, from a number of them on. `func_body` and
-- `dangling` are the ids that the builder gives.
module _ (func_body : SeqId) (dangling : ℕ → SeqId) where
  unfoldable pub start_instr_seq : ℕ → SequenceMapping → SeqId → SequenceMapping
  start_instr_seq n [] s = (s, func_body) ∷ []
  start_instr_seq n (p ∷ m) s = (s, dangling n) ∷ (p ∷ m)

  unfoldable pub start_instr_seqs : ℕ → SequenceMapping → List SeqId → SequenceMapping
  start_instr_seqs n m [] = m
  start_instr_seqs n m (s ∷ started) = start_instr_seqs (n + 1) (start_instr_seq n m s) started

-- `self.sequence_mapping[seq]`, which panics on an id that is not there.
abbrev pub renamed : SequenceMapping → SeqId → Outcome Error SeqId
renamed m s = or_fault (new_seq m s)

unfoldable pub renamed_all : SequenceMapping → List SeqId → Outcome Error (List SeqId)
renamed_all m [] = ok []
renamed_all m (s ∷ blocks) = do s' ← renamed m s; blocks' ← renamed_all m blocks; ok (s' ∷ blocks')

-- The `match` of `clone_function`, with the replacer's state.
unfoldable pub clone_instr :
    SequenceMapping → SeqId → Replacements → Instr → Outcome Error (Replacements × Instr)
clone_instr m old_id reps (block s) = do s' ← renamed m s; ok (reps, block s')
clone_instr m old_id reps (loop s) = do s' ← renamed m s; ok (reps, loop s')
clone_instr m old_id reps (br s) = do s' ← renamed m s; ok (reps, br s')
clone_instr m old_id reps (br_if s) = do s' ← renamed m s; ok (reps, br_if s')
clone_instr m old_id reps (if_else consequent alternative) = do
  consequent' ← renamed m consequent
  alternative' ← renamed m alternative
  ok (reps, if_else consequent' alternative')
clone_instr m old_id reps (br_table blocks default_) = do
  blocks' ← renamed_all m blocks
  default' ← renamed m default_
  ok (reps, br_table blocks' default')
clone_instr m old_id reps (local_get l) =
    let (r, reps') = take_replacement reps old_id l in ok (reps', local_get (or_else r l))
clone_instr m old_id reps i = ok (reps, i)

unfoldable pub clone_instrs :
    SequenceMapping → SeqId → Replacements → Instrs → Outcome Error (Replacements × Instrs)
clone_instrs m old_id reps [] = ok (reps, [])
clone_instrs m old_id reps ((i, loc) ∷ rest) = do
  (reps', i') ← clone_instr m old_id reps i
  (reps'', rest') ← clone_instrs m old_id reps' rest
  ok (reps'', (i', loc) ∷ rest')

-- `local_fn.block_mut(old_id).instrs`
unfoldable pub block_mut : Body → SeqId → Option Instrs
block_mut [] s = none
block_mut (seq ∷ body) s = if seq.id == s then some seq.instrs else block_mut body s

-- `clone_function`: the loop over the mapping, with the sequences of the new builder.
unfoldable pub clone_function :
    SequenceMapping → SequenceMapping → Replacements → Body → Outcome Error Body
clone_function m [] reps body = ok []
clone_function m ((old_id, new_id) ∷ pairs) reps body = do
  instrs ← or_fault (block_mut body old_id)
  (reps', instrs') ← clone_instrs m old_id reps instrs
  body' ← clone_function m pairs reps' body
  ok (record { id = new_id; instrs = instrs' } ∷ body')
