-- ===== src/Wasm/Typing.antt =====
-- Validation of the instructions of Wasm, as rules of typing that follow the WebAssembly specification: a rule is
-- named after the instruction in front. They are stricter: the operands at a `return` are the
-- results, with none below, nothing follows an instruction that does not go on, and a block or loop has no result.
use externref.Prelude.{
  ℕ, ◌≡◌, Bool, true, false, ◌||◌, List, [], ◌∷◌, ◌++◌, map, none, some, ◌==◌, get_elem?,
}
use externref.Wasm.{BlockType, results_of, Instr, Code, ◌⨾◌, Value, i32, ref}
use externref.Processor.Ir.{ValType}
use externref.Processor.Types.{FuncType}

abbrev pub Stack : Type 0
Stack = List ValType

abbrev pub type_of : Value → ValType
type_of (i32 n) = ValType.i32
type_of (ref r) = ValType.extern_ref

abbrev pub types : List Value → Stack
types vs = map type_of vs

-- The labels of the sequences around a piece of code.
unfoldable pub is_label : List ℕ → ℕ → Bool
is_label [] k = false
is_label (l ∷ ls) k = (k == l) || is_label ls k

-- In a function with the locals `Γ` and the results `R`, inside the labels `Λ`, with the operands `β` that the code
-- does not reach below: the code takes the operands `σ` to `τ`.
pub data Typed (Γ R : Stack) : List ℕ → Stack → Stack → Code → Stack → Type 0 where
  nop : {Λ : List ℕ} {β σ : Stack} → Typed Γ R Λ β σ Code.nop σ
  local_get :
      {Λ : List ℕ} {β σ τ : Stack} {x : ℕ} {ty : ValType} {rest : Code}
      → get_elem? Γ x ≡ some ty
      → Typed Γ R Λ β (ty ∷ σ) rest τ
      → Typed Γ R Λ β σ (Instr.local_get x ⨾ rest) τ
  local_set :
      {Λ : List ℕ} {β σ τ : Stack} {x : ℕ} {ty : ValType} {rest : Code}
      → get_elem? Γ x ≡ some ty
      → Typed Γ R Λ β σ rest τ
      → Typed Γ R Λ β (ty ∷ σ) (Instr.local_set x ⨾ rest) τ
  i32_const :
      {Λ : List ℕ} {β σ τ : Stack} {n : ℕ} {rest : Code}
      → Typed Γ R Λ β (ValType.i32 ∷ σ) rest τ
      → Typed Γ R Λ β σ (Instr.i32_const n ⨾ rest) τ
  i32_sub :
      {Λ : List ℕ} {β σ τ : Stack} {rest : Code}
      → Typed Γ R Λ β (ValType.i32 ∷ σ) rest τ
      → Typed Γ R Λ β (ValType.i32 ∷ (ValType.i32 ∷ σ)) (Instr.i32_sub ⨾ rest) τ
  i32_eq :
      {Λ : List ℕ} {β σ τ : Stack} {rest : Code}
      → Typed Γ R Λ β (ValType.i32 ∷ σ) rest τ
      → Typed Γ R Λ β (ValType.i32 ∷ (ValType.i32 ∷ σ)) (Instr.i32_eq ⨾ rest) τ
  ref_null :
      {Λ : List ℕ} {β σ τ : Stack} {rest : Code}
      → Typed Γ R Λ β (ValType.extern_ref ∷ σ) rest τ
      → Typed Γ R Λ β σ (Instr.ref_null ⨾ rest) τ
  ref_is_null :
      {Λ : List ℕ} {β σ τ : Stack} {rest : Code}
      → Typed Γ R Λ β (ValType.i32 ∷ σ) rest τ
      → Typed Γ R Λ β (ValType.extern_ref ∷ σ) (Instr.ref_is_null ⨾ rest) τ
  table_size :
      {Λ : List ℕ} {β σ τ : Stack} {rest : Code}
      → Typed Γ R Λ β (ValType.i32 ∷ σ) rest τ
      → Typed Γ R Λ β σ (Instr.table_size ⨾ rest) τ
  table_get :
      {Λ : List ℕ} {β σ τ : Stack} {rest : Code}
      → Typed Γ R Λ β (ValType.extern_ref ∷ σ) rest τ
      → Typed Γ R Λ β (ValType.i32 ∷ σ) (Instr.table_get ⨾ rest) τ
  table_set :
      {Λ : List ℕ} {β σ τ : Stack} {rest : Code}
      → Typed Γ R Λ β σ rest τ
      → Typed Γ R Λ β (ValType.extern_ref ∷ (ValType.i32 ∷ σ)) (Instr.table_set ⨾ rest) τ
  table_grow :
      {Λ : List ℕ} {β σ τ : Stack} {rest : Code}
      → Typed Γ R Λ β (ValType.i32 ∷ σ) rest τ
      → Typed Γ R Λ β (ValType.i32 ∷ (ValType.extern_ref ∷ σ)) (Instr.table_grow ⨾ rest) τ
  call :
      {Λ : List ℕ} {β σ τ : Stack} {f : ℕ} {rest : Code}
      → Typed Γ R Λ β σ rest τ
      → Typed Γ R Λ β (ValType.extern_ref ∷ σ) (Instr.call f ⨾ rest) τ
  br :
      {Λ : List ℕ} {β σ τ : Stack} {l : ℕ}
      → is_label Λ l ≡ true
      → Typed Γ R Λ β σ (Instr.br l ⨾ Code.nop) τ
  return_ : {Λ : List ℕ} {τ : Stack} → Typed Γ R Λ [] R (Instr.return_ ⨾ Code.nop) τ
  unreachable : {Λ : List ℕ} {β σ τ : Stack} → Typed Γ R Λ β σ (Instr.unreachable ⨾ Code.nop) τ
  block :
      {Λ : List ℕ} {β σ τ : Stack} {l : ℕ} {body rest : Code}
      → Typed Γ R (l ∷ Λ) (σ ++ β) [] body []
      → Typed Γ R Λ β σ rest τ
      → Typed Γ R Λ β σ (Instr.block none l body ⨾ rest) τ
  loop :
      {Λ : List ℕ} {β σ τ : Stack} {l : ℕ} {body rest : Code}
      → Typed Γ R (l ∷ Λ) (σ ++ β) [] body []
      → Typed Γ R Λ β σ rest τ
      → Typed Γ R Λ β σ (Instr.loop none l body ⨾ rest) τ
  if_else :
      {Λ : List ℕ} {β σ τ : Stack} {ty : BlockType} {then_ else_ rest : Code}
      → Typed Γ R Λ (σ ++ β) [] then_ (results_of ty)
      → Typed Γ R Λ (σ ++ β) [] else_ (results_of ty)
      → Typed Γ R Λ β (results_of ty ++ σ) rest τ
      → Typed Γ R Λ β (ValType.i32 ∷ σ) (Instr.if_else ty then_ else_ ⨾ rest) τ

-- A function of the type `t` with further locals.
abbrev pub Validates : FuncType → Stack → Code → Type 0
Validates t more code = Typed (t.params ++ more) t.results [] [] [] code t.results
