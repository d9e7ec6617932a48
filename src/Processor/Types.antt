-- ===== src/Processor/Types.antt =====
-- Signatures of functions: `patch_type_inner`, `patch_type` and `fn_module` of
-- crates/lib/src/processor/state.rs. A type id of walrus stands for the type that it names.
pub mod Patch
pub mod Accepts
use externref.Prelude.{
  ℕ, zero, suc, ◌+◌, ◌-◌, Bool, true, false, not, List, [], ◌∷◌, Option, none, some, ◌==◌, ltb,
  if◌then◌else◌, length, get_elem?, set, Outcome, ok, err, fault, or_fault, checked, ◌>>=◌, ◌>>◌,
  Str,
}
use externref.Signature.Types.{FunctionKind, export, import, Function}
use externref.Signature.Bits.{set_indices}
use externref.Processor.Ir.{ValType, i32, i64, f32, f64, v128, extern_ref, func_ref}
use externref.Processor.Error.{Error, unexpected_arity, unexpected_type, Location, arg, return_type}

pub record FuncType : Type 0 where
  pub params : List ValType
  pub results : List ValType

unfoldable pub fn_module : FunctionKind → Option Str
fn_module export = none
fn_module (import m) = some m

unfoldable pub is_i32 : ValType → Bool
is_i32 i32 = true
is_i32 _ = false

-- `if idx < new_params.len() { &mut new_params[idx] } else { &mut new_results[idx - new_params.len()] }`
unfoldable pub placement : FuncType → ℕ → Option ValType
placement t idx =
    if ltb idx (length t.params)
    then get_elem? t.params idx
    else get_elem? t.results (idx - length t.params)

unfoldable pub place : FuncType → ℕ → ValType → FuncType
place t idx v =
    if ltb idx (length t.params)
    then record t { params = set t.params idx v }
    else record t { results = set t.results (idx - length t.params) v }

unfoldable pub location_of : FuncType → ℕ → Location
location_of t idx =
    if ltb idx (length t.params) then arg idx else return_type (idx - length t.params)

-- The error of a slot that is no `i32`: its `real_type` is read from `new_params[idx]`.
unfoldable pub wrong_type : Function → FuncType → ℕ → Outcome Error FuncType
unfolding fn_module location_of
wrong_type f t idx = do
  real ← or_fault (get_elem? t.params idx)
  err (unexpected_type (fn_module f.kind) f.name (location_of t idx) real)

-- One round of the loop over `set_indices`, and the loop.
unfoldable pub patch_slot : Function → ℕ → FuncType → Outcome Error FuncType
unfolding wrong_type
patch_slot f idx t = do
  ty ← or_fault (placement t idx)
  let patched = ok (place t idx extern_ref)
  let refused = wrong_type f t idx
  if is_i32 ty then patched else refused

unfoldable pub patch_slots : Function → List ℕ → FuncType → Outcome Error FuncType
patch_slots f [] t = ok t
patch_slots f (idx ∷ is) t = patch_slot f idx t >>= patch_slots f is

unfoldable pub arity : FuncType → ℕ
arity t = length t.params + length t.results

-- `patch_type_inner`
unfoldable pub patch_type_inner : Function → FuncType → Outcome Error FuncType
unfolding arity fn_module
patch_type_inner f t = do
  let wrong = unexpected_arity (fn_module f.kind) f.name f.externrefs.bit_len (arity t)
  let loop = (checked (set_indices f.externrefs) >>= λ is. patch_slots f is t)
  if arity t == f.externrefs.bit_len then loop else err wrong
