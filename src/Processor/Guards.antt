-- ===== src/Processor/Guards.antt =====
-- The guards of crates/lib/src/processor/functions.rs: `GuardPlacement`, `GuardRemover`,
-- `PatchedFunctions::remove_guards`.
pub mod Placement
use externref.Prelude.{
  ℕ, zero, suc, ◌+◌, Bool, true, false, ◌&&◌, ◌||◌, List, [], ◌∷◌, Option, none, some, ◌==◌, ltb,
  leb, if◌then◌else◌, Outcome, ok, err, Str,
}
use externref.Processor.Ir.{
  Instr, call, global_set, other, InstrLocId, Instrs, InstrSeq, Body, SeqId, FunctionId, get_offset,
}
use externref.Processor.Error.{Error, incorrect_guard}

-- The order of the constructors is the derived order.
pub data GuardPlacement : Type 0 where
  correct : GuardPlacement
  incorrect : Option ℕ → GuardPlacement

unfoldable pub offset_le : Option ℕ → Option ℕ → Bool
offset_le none o = true
offset_le (some a) none = false
offset_le (some a) (some b) = leb a b

unfoldable pub placement_le : Option GuardPlacement → Option GuardPlacement → Bool
unfolding offset_le
placement_le none p = true
placement_le (some p) none = false
placement_le (some correct) (some q) = true
placement_le (some (incorrect a)) (some correct) = false
placement_le (some (incorrect a)) (some (incorrect b)) = offset_le a b

-- `self.placement = cmp::max(self.placement, Some(placement))`
unfoldable pub add_placement : Option GuardPlacement → GuardPlacement → Option GuardPlacement
add_placement self p = if placement_le self (some p) then some p else self

unfoldable pub is_call_to : FunctionId → Instr → Bool
is_call_to f (call g) = g == f
is_call_to f _ = false

unfoldable pub is_global_set : Instr → Bool
is_global_set (global_set x) = true
is_global_set _ = false

-- The placement that the closure of `retain` computes.
unfoldable pub placement_at :
    FunctionId → Bool → ℕ → Bool → Instr → InstrLocId → Option GuardPlacement
placement_at guard is_entry idx maybe_set_stack_ptr instr loc =
    if is_call_to guard instr
    then some (
        if is_entry && (idx == 0 || maybe_set_stack_ptr)
        then correct
        else incorrect (get_offset loc))
    else none

abbrev pub noted : Option GuardPlacement → Option GuardPlacement → Option GuardPlacement
noted self none = self
noted self (some p) = add_placement self p

abbrev pub kept : Option GuardPlacement → Instr × InstrLocId → Instrs → Instrs
kept none i rest = i ∷ rest
kept (some p) i rest = rest

-- `instrs.retain(..)`: the placement so far, the index and the flag go along.
unfoldable pub retain :
    FunctionId → Bool → ℕ → Bool → Option GuardPlacement → Instrs → Option GuardPlacement × Instrs
retain guard is_entry idx flag self [] = (self, [])
retain guard is_entry idx flag self ((instr, loc) ∷ rest) =
    let placement = placement_at guard is_entry idx flag instr loc in
    let (self', rest') =
      retain guard is_entry (idx + 1) (is_global_set instr) (noted self placement) rest in
    (self', kept placement (instr, loc) rest')

-- `start_instr_seq_mut` on every sequence that the traversal visits.
unfoldable pub visit :
    FunctionId → SeqId → Option GuardPlacement → Body → Option GuardPlacement × Body
visit guard entry self [] = (self, [])
visit guard entry self (seq ∷ body) =
    let (self', instrs') = retain guard (seq.id == entry) 0 false self seq.instrs in
    let (self'', body') = visit guard entry self' body in
    (self'', record seq { instrs = instrs' } ∷ body')

unfoldable pub verdict : Option Str → Option GuardPlacement × Body → Outcome Error (Bool × Body)
verdict name (none, body) = ok (false, body)
verdict name (some correct, body) = ok (true, body)
verdict name (some (incorrect offset), body) = err (incorrect_guard name offset)

-- `remove_guards`, with the body that it leaves.
unfoldable pub remove_guards : FunctionId → Option Str → SeqId → Body → Outcome Error (Bool × Body)
unfolding verdict
remove_guards guard name entry body = verdict name (visit guard entry none body)
