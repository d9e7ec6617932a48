-- ===== src/Macro/Function.antt =====
-- `Function` of crates/macro/src/externref.rs: what the macro reads from a function's signature, and the
-- declaration that it writes for the custom section.
pub mod Marks
pub mod Slots
use externref.Prelude.{
  ℕ, zero, suc, ◌+◌, ◌/◌, Bool, true, false, ◌||◌, List, [], ◌∷◌, ◌++◌, map, Option, none, some,
  if◌then◌else◌, length, Outcome, ok, err, fault, ◌>>=◌, ◌>>◌, Str, text, str_eq,
}
use externref.Signature.Types.{BitSliceBuilder, FunctionKind, export, import}
use externref.Signature.Bits.{builder, with_set_bits}
use externref.Macro.Syntax.{
  Segments, Expr, lit_str, SynError, abi_missing, abi_unexpected, variadic_fn, value_expected, Meta,
  word, list, name_value, Attribute, FnArg, receiver, typed, Output, default_output, returns, Abi,
  Signature, ItemFn, is_ident,
}
use externref.Macro.Kinds.{ResourceKind, from_type}

unfoldable pub check_abi : Str → Option Str → Outcome SynError (Unit {0})
check_abi target_name none = err (abi_missing target_name)
check_abi target_name (some abi_name) =
    if str_eq abi_name (text "C") then ok tt else err (abi_unexpected abi_name target_name)

-- `attrs.iter().find(|attr| attr.path().is_ident(name))`
unfoldable pub find_attr : List Attribute → Str → Option Attribute
find_attr [] name = none
find_attr (attr ∷ attrs) name = if is_ident attr.ident name then some attr else find_attr attrs name

-- `attr.meta.require_name_value()`
abbrev pub require_name_value : Str → Meta → Outcome SynError (Option Expr)
require_name_value name word = err (value_expected name)
require_name_value name (list metas) = err (value_expected name)
require_name_value name (name_value e) = ok (some e)

unfoldable pub attr_expr : List Attribute → Str → Outcome SynError (Option Expr)
attr_expr attrs name = elim (find_attr attrs name) [
  | none ↦ ok none
  | some attr ↦ require_name_value name attr.meta
]

pub data ReturnType : Type 0 where
  default : ReturnType
  not_resource : ReturnType
  resource : ResourceKind → ReturnType

pub record Function : Type 0 where
  pub name : Expr
  pub arg_count : ℕ
  pub resource_args : List (ℕ × ResourceKind)
  pub return_type : ReturnType
  pub crate_path : Segments

unfoldable pub arg_kind : FnArg → Option ResourceKind
arg_kind (receiver k) = none
arg_kind (typed p ty) = from_type ty

abbrev pub add_arg : ℕ → Option ResourceKind → List (ℕ × ResourceKind) → List (ℕ × ResourceKind)
add_arg i none args = args
add_arg i (some kind) args = (i, kind) ∷ args

-- The arguments from number `i` on that are resources.
unfoldable pub resource_args_from : ℕ → List FnArg → List (ℕ × ResourceKind)
resource_args_from i [] = []
resource_args_from i (arg ∷ inputs) = add_arg i (arg_kind arg) (resource_args_from (i + 1) inputs)

abbrev pub as_return : Option ResourceKind → ReturnType
as_return none = not_resource
as_return (some kind) = resource kind

unfoldable pub return_type_of : Output → ReturnType
return_type_of default_output = default
return_type_of (returns ty) = as_return (from_type ty)

abbrev pub name_or : Option Expr → Str → Expr
name_or (some e) ident = e
name_or none ident = lit_str ident

unfoldable pub from_sig : Signature → Option Expr → Segments → Function
from_sig sig name_override crate_path = record {
  name = name_or name_override sig.ident;
  arg_count = length sig.inputs;
  resource_args = resource_args_from 0 sig.inputs;
  return_type = return_type_of sig.output;
  crate_path = crate_path;
}

abbrev pub abi_name : Option Abi → Option Str
abi_name none = none
abi_name (some abi) = abi.name

-- `Function::new`
unfoldable pub new : ItemFn → Segments → Outcome SynError Function
new function crate_path = do
  check_abi (text "exported function") (abi_name function.sig.abi)
  (if function.sig.variadic then err variadic_fn else ok tt)
  export_name ← attr_expr function.attrs (text "export_name")
  ok (from_sig function.sig export_name crate_path)

abbrev pub is_resource_return : ReturnType → Bool
is_resource_return (resource kind) = true
is_resource_return _ = false

abbrev pub has_args : List (ℕ × ResourceKind) → Bool
has_args [] = false
has_args (a ∷ args) = true

unfoldable pub needs_declaring : Function → Bool
needs_declaring self = has_args self.resource_args || is_resource_return self.return_type

-- `BitSlice::builder::<bytes>(bit_len).with_set_bit(..)..build()`
pub record BitSliceExpr : Type 0 where
  pub bytes : ℕ
  pub bit_len : ℕ
  pub set_bits : List ℕ

abbrev pub return_count : ReturnType → ℕ
return_count default = 0
return_count _ = 1

abbrev pub ret_idx : ReturnType → ℕ → List ℕ
ret_idx (resource kind) arg_count = arg_count ∷ []
ret_idx _ arg_count = []

-- The declaration of a function: `None` for the module is an export.
pub record Declaration : Type 0 where
  pub crate_path : Segments
  pub module_name : Option Str
  pub name : Expr
  pub externrefs : BitSliceExpr

-- The kind that `declare` writes.
abbrev pub declared_kind : Option Str → FunctionKind
declared_kind none = export
declared_kind (some module_name) = import module_name

-- `order` is the order in which a map of that many keys gives them.
module _ (order : List ℕ → List ℕ) where
  unfoldable pub create_externrefs : Function → BitSliceExpr
  create_externrefs self =
      let count : ℕ = self.arg_count + return_count self.return_type in
      record {
        bytes = (count + 7) / 8;
        bit_len = count;
        set_bits =
            order (map (λ p. p.0) self.resource_args) ++ ret_idx self.return_type self.arg_count;
      }

  unfoldable pub declare : Function → Option Str → Declaration
  declare self module_name = record {
    crate_path = self.crate_path;
    module_name = module_name;
    name = self.name;
    externrefs = create_externrefs self;
  }

-- The value of the expression, when the compiler evaluates it.
unfoldable pub evaluate : BitSliceExpr → Outcome ⊥ BitSliceBuilder
evaluate e = builder e.bytes e.bit_len >>= with_set_bits e.set_bits
