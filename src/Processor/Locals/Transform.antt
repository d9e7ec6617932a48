-- ===== src/Processor/Locals/Transform.antt =====
-- `transform_local_fn` of crates/lib/src/processor/state.rs.
use externref.Prelude.{
  ℕ, Bool, List, [], ◌∷◌, Option, none, ◌==◌, if◌then◌else◌, length, Outcome, ok, err, Str,
}
use externref.Processor.Ir.{local_get, Instrs, Body, SeqId, LocalId, FunctionId, get_offset}
use externref.Processor.Error.{Error, unexpected_call}
use externref.Processor.Types.{FuncType}
use externref.Processor.Locals.{
  detect_body, Replacements, Visit, count, initial, reversed, take_replacement, or_else,
}

-- A function of the module that is not imported.
pub record LocalFunction : Type 0 where
  pub name : Option Str
  pub type_ : FuncType
  pub args : List LocalId
  pub entry : SeqId
  pub body : Body

abbrev pub first_offset : Instrs → Option ℕ
first_offset [] = none
first_offset ((i, loc) ∷ rest) = get_offset loc

-- `function_offset`: the offset of the first instruction of the entry block.
unfoldable pub function_offset : SeqId → Body → Option ℕ
function_offset entry [] = none
function_offset entry (seq ∷ body) =
    if seq.id == entry then first_offset seq.instrs else function_offset entry body

-- `LocalReplacer` on one sequence and on a body.
unfoldable pub replace_seq : SeqId → Replacements → Instrs → Replacements × Instrs
replace_seq s reps [] = (reps, [])
replace_seq s reps ((local_get l, loc) ∷ rest) =
    let (r, reps') = take_replacement reps s l in
    let (reps'', rest') = replace_seq s reps' rest in
    (reps'', (local_get (or_else r l), loc) ∷ rest')
replace_seq s reps (i ∷ rest) = let (reps', rest') = replace_seq s reps rest in (reps', i ∷ rest')

unfoldable pub replace_local_gets : Replacements → Body → Body
replace_local_gets reps [] = []
replace_local_gets reps (seq ∷ body) =
    let (reps', instrs') = replace_seq seq.id reps seq.instrs in
    record seq { instrs = instrs' } ∷ replace_local_gets reps' body

-- `transform_local_fn`, with the next local id before and after. `in_order` lists the visits of walrus's
-- `dfs_in_order`.
module _ (in_order : LocalFunction → List Visit) where
  unfoldable pub transform_local_fn :
      List FunctionId → Bool → ℕ → LocalFunction → Outcome Error (ℕ × LocalFunction)
  unfolding detect_body
  transform_local_fn fns can_have_locals next_local self =
      let (d, body') =
        detect_body fns (record { next_local = next_local; new_locals = [] }) self.body in
      let detected : LocalFunction = record self { body = body' } in
      let counted = count d.new_locals (initial d.new_locals []) (λ l s. []) (in_order detected) in
      let replaced = record self { body = replace_local_gets (reversed counted) body' } in
      if length d.new_locals == 0
      then ok (d.next_local, detected)
      else if can_have_locals
      then ok (d.next_local, replaced)
      else err (unexpected_call self.name (function_offset self.entry body'))
