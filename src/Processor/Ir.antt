-- ===== src/Processor/Ir.antt =====
-- The parts of a module that the processor's passes look at: instructions with their locations,
-- instruction sequences and value types. The ids that the arenas of walrus hand out are numbers.
use externref.Prelude.{ℕ, List, Option, none, some}

pub data ValType : Type 0 where
  i32 i64 f32 f64 v128 extern_ref func_ref : ValType

abbrev pub FunctionId : Type 0
FunctionId = ℕ

abbrev pub LocalId : Type 0
LocalId = ℕ

abbrev pub SeqId : Type 0
SeqId = ℕ

-- The instructions that the passes tell apart, and any other, with its code.
pub data Instr : Type 0 where
  call : FunctionId → Instr
  ref_func : FunctionId → Instr
  local_get : LocalId → Instr
  local_set : LocalId → Instr
  local_tee : LocalId → Instr
  global_set : ℕ → Instr
  block : SeqId → Instr
  loop : SeqId → Instr
  br : SeqId → Instr
  br_if : SeqId → Instr
  if_else : SeqId → SeqId → Instr
  br_table : List SeqId → SeqId → Instr
  other : ℕ → Instr

pub data InstrLocId : Type 0 where
  default : InstrLocId
  location : ℕ → InstrLocId

abbrev pub Instrs : Type 0
Instrs = List (Instr × InstrLocId)

pub record InstrSeq : Type 0 where
  pub id : SeqId
  pub instrs : Instrs

-- The sequences of a function's body in the order in which walrus visits them.
abbrev pub Body : Type 0
Body = List InstrSeq

-- `get_offset`
unfoldable pub get_offset : InstrLocId → Option ℕ
get_offset default = none
get_offset (location data_) = some data_
