-- ===== src/Wasm.antt =====
-- The WebAssembly instructions that crates/lib/src/processor/functions.rs emits, and their execution
-- as the WebAssembly specification describes it, over one table of references.
-- A reference is null (`none`) or an opaque token of the host. The embedder decides whether a table
-- may grow: `grows n` is its answer for a table of `n` elements.
pub mod Typing
pub mod Steps
pub mod Safety
use externref.Prelude.{
  ℕ, zero, suc, ◌+◌, ◌-◌, ◌%◌, ◌^◌, Bool, true, false, ◌&&◌, List, [], ◌∷◌, ◌++◌, Option, none,
  some, ltb, ◌==◌, if◌then◌else◌, length, get_elem?, set, replicate,
}
use externref.Processor.Ir.{ValType}

abbrev pub HostRef : Type 0
HostRef = ℕ

abbrev pub Ref : Type 0
Ref = Option HostRef

abbrev pub Table : Type 0
Table = List Ref

-- The block type of a nested sequence: no operands, and no result or one.
abbrev pub BlockType : Type 0
BlockType = Option ValType

abbrev pub results_of : BlockType → List ValType
results_of none = []
results_of (some ty) = ty ∷ []

-- A nested sequence stands under its block type, which validation reads and execution does not, and its label;
-- `br` names the label of a sequence around it.
infixr 67 ◌⨾◌
mutual
  pub data Instr : Type 0 where
    local_get : ℕ → Instr
    local_set : ℕ → Instr
    i32_const : ℕ → Instr
    i32_sub : Instr
    i32_eq : Instr
    ref_null : Instr
    ref_is_null : Instr
    table_size : Instr
    table_get : Instr
    table_set : Instr
    table_grow : Instr
    call : ℕ → Instr
    br : ℕ → Instr
    return_ : Instr
    unreachable : Instr
    block : BlockType → ℕ → Code → Instr
    loop : BlockType → ℕ → Code → Instr
    if_else : BlockType → Code → Code → Instr

  pub data Code : Type 0 where
    nop : Code
    ◌⨾◌ : Instr → Code → Code

pub data Value : Type 0 where
  i32 : ℕ → Value
  ref : Ref → Value

-- `calls` are the calls of imported functions, with their arguments, the latest last.
pub record Machine : Type 0 where
  pub stack : List Value
  pub locals : List Value
  pub table : Table
  pub calls : List (ℕ × Ref)

-- How a piece of code ends. `stuck` is code that validation refuses, `exhausted` a loop for which the
-- rounds did not suffice.
pub data Exit : Type 0 where
  next : Machine → Exit
  branch : ℕ → Machine → Exit
  returned : Machine → Exit
  trap : Exit
  stuck : Exit
  exhausted : Exit

abbrev pub i32_mod : ℕ
i32_mod = 2 ^ 32

-- -1 as an `i32`, which is also `usize::MAX` of wasm32.
abbrev pub minus_one : ℕ
minus_one = 0xffff_ffff

abbrev pub of_bool : Bool → Value
of_bool b = i32 (if b then 1 else 0)

abbrev pub is_null : Ref → Bool
is_null none = true
is_null (some _) = false

abbrev push : Value → List Value → Machine → Exit
push v st m = next (record m { stack = v ∷ st })

-- The instructions on the operands at the top of the stack, which is the list's head.
unfoldable pub exec_get : Option Value → Machine → Exit
exec_get none m = stuck
exec_get (some v) m = push v m.stack m

unfoldable pub exec_set : ℕ → List Value → Machine → Exit
exec_set x [] m = stuck
exec_set x (v ∷ st) m = next (record m { stack = st; locals = set m.locals x v })

unfoldable pub exec_binary : (ℕ → ℕ → Value) → List Value → Machine → Exit
exec_binary op (i32 b ∷ (i32 a ∷ st)) m = push (op a b) st m
exec_binary op _ m = stuck

unfoldable pub exec_is_null : List Value → Machine → Exit
exec_is_null (ref r ∷ st) m = push (of_bool (is_null r)) st m
exec_is_null _ m = stuck

unfoldable pub fetch : Option Ref → List Value → Machine → Exit
fetch none st m = trap
fetch (some r) st m = push (ref r) st m

unfoldable pub exec_table_get : List Value → Machine → Exit
unfolding fetch
exec_table_get (i32 i ∷ st) m = fetch (get_elem? m.table i) st m
exec_table_get _ m = stuck

unfoldable pub exec_table_set : List Value → Machine → Exit
exec_table_set (ref r ∷ (i32 i ∷ st)) m =
    if ltb i (length m.table) then next (record m { stack = st; table = set m.table i r }) else trap
exec_table_set _ m = stuck

unfoldable pub exec_table_grow : (ℕ → Bool) → List Value → Machine → Exit
exec_table_grow grows (i32 n ∷ (ref r ∷ st)) m =
    if grows (length m.table) && ltb (length m.table + n) i32_mod
    then next (record m { stack = i32 (length m.table) ∷ st; table = m.table ++ replicate n r })
    else push (i32 minus_one) st m
exec_table_grow grows _ m = stuck

unfoldable pub exec_call : ℕ → List Value → Machine → Exit
exec_call f (ref r ∷ st) m = next (record m { stack = st; calls = m.calls ++ ((f, r) ∷ []) })
exec_call f _ m = stuck

abbrev pub sub32 : ℕ → ℕ → ℕ
sub32 a b = (a + i32_mod - b) % i32_mod

-- A branch to the label `l` of a block without a result goes on behind the block, with the operands that were there before it.
unfoldable pub leave : ℕ → List Value → Exit → Exit
leave l st (branch k m) = if k == l then next (record m { stack = st }) else branch k m
leave l st e = e

-- A branch to a loop's label begins its next round.
unfoldable pub repeat : ℕ → ℕ → List Value → (Machine → Exit) → Machine → Exit
repeat zero l st body m = exhausted
repeat (suc rounds) l st body m = elim (body m) [
  | branch k m' ↦ elim (k == l) [
    | true ↦ repeat rounds l st body (record m' { stack = st })
    | false ↦ branch k m'
  ]
  | next m' ↦ next m'
  | returned m' ↦ returned m'
  | trap ↦ trap
  | stuck ↦ stuck
  | exhausted ↦ exhausted
]

unfoldable pub and_then : Exit → (Machine → Exit) → Exit
and_then (next m) k = k m
and_then e k = e

unfoldable pub choose : List Value → (Machine → Exit) → (Machine → Exit) → Machine → Exit
choose (i32 c ∷ st) yes_ no_ m = elim (c == 0) [
  | true ↦ no_ (record m { stack = st })
  | false ↦ yes_ (record m { stack = st })
]
choose _ yes_ no_ m = stuck

-- `rounds` bounds the rounds of each loop.
unfoldable mutual
  pub exec : (ℕ → Bool) → ℕ → Code → Machine → Exit
  exec grows rounds nop m = next m
  exec grows rounds (i ⨾ rest) m = and_then (exec_instr grows rounds i m) (exec grows rounds rest)

  pub exec_instr : (ℕ → Bool) → ℕ → Instr → Machine → Exit
  exec_instr grows rounds (local_get x) m = exec_get (get_elem? m.locals x) m
  exec_instr grows rounds (local_set x) m = exec_set x m.stack m
  exec_instr grows rounds (i32_const n) m = push (i32 n) m.stack m
  exec_instr grows rounds i32_sub m = exec_binary (λ a b. i32 (sub32 a b)) m.stack m
  exec_instr grows rounds i32_eq m = exec_binary (λ a b. of_bool (a == b)) m.stack m
  exec_instr grows rounds ref_null m = push (ref none) m.stack m
  exec_instr grows rounds ref_is_null m = exec_is_null m.stack m
  exec_instr grows rounds table_size m = push (i32 (length m.table)) m.stack m
  exec_instr grows rounds table_get m = exec_table_get m.stack m
  exec_instr grows rounds table_set m = exec_table_set m.stack m
  exec_instr grows rounds table_grow m = exec_table_grow grows m.stack m
  exec_instr grows rounds (call f) m = exec_call f m.stack m
  exec_instr grows rounds (br l) m = branch l m
  exec_instr grows rounds return_ m = returned m
  exec_instr grows rounds unreachable m = trap
  exec_instr grows rounds (block ty l body) m = leave l m.stack (exec grows rounds body m)
  exec_instr grows rounds (loop ty l body) m = repeat rounds l m.stack (exec grows rounds body) m
  exec_instr grows rounds (if_else ty then_ else_) m =
      choose m.stack (exec grows rounds then_) (exec grows rounds else_) m

-- What a call of a function leaves: its results, the table, and the calls it made.
pub data Answer : Type 0 where
  answer : List Value → Table → List (ℕ × Ref) → Answer
  trapped : Answer
  invalid : Answer
  out_of_rounds : Answer

abbrev pub answer_of : Exit → Answer
answer_of (next m) = answer m.stack m.table m.calls
answer_of (returned m) = answer m.stack m.table m.calls
answer_of (branch k m) = invalid
answer_of trap = trapped
answer_of stuck = invalid
answer_of exhausted = out_of_rounds

-- A call of a function on its arguments; its other locals begin as 0.
unfoldable pub invoke : (ℕ → Bool) → ℕ → Code → ℕ → List Value → Table → Answer
invoke grows rounds code zeros args table = answer_of (
    exec grows rounds code
      (record { stack = []; locals = args ++ replicate zeros (i32 0); table = table; calls = [] }))
