-- ===== src/Macro/Wrappers.antt =====
-- The wrappers that crates/macro/src/externref.rs generates, and `for_export`.
pub mod Attributes
pub mod Names
pub mod Types
use externref.Prelude.{
  ℕ, zero, suc, ◌+◌, ◌/◌, ◌%◌, Bool, true, false, not, List, [], ◌∷◌, ◌++◌, Option, none, some,
  ◌==◌, ltb, if◌then◌else◌, Outcome, ok, err, fault, ◌>>=◌, Str, text, str_eq,
}
use externref.Macro.Syntax.{
  Ty, path, Segments, Expr, lit_str, SynError, Meta, name_value, list, other_meta, Attribute, Pat,
  ident_pat, FnArg, receiver, typed, Output, default_output, returns, Abi, Visibility, inherited,
  Signature, ItemFn, is_ident, join,
}
use externref.Macro.Kinds.{ResourceKind, Code, var, initialize_for_export, prepare_for_import}
use externref.Macro.Function.{
  ReturnType, default, not_resource, resource, Function, new, needs_declaring, Declaration, declare,
}

-- The decimal digits of a number, as `format!` writes them.
unfoldable pub digits : ℕ → ℕ → Str
digits zero n = []
digits (suc fuel) n =
    let rest = digits fuel (n / 10) in
    if ltb n 10 then (b'0' + n) ∷ [] else rest ++ ((b'0' + n % 10) ∷ [])

abbrev pub arg_name : ℕ → Str
arg_name i = text "__arg" ++ digits (suc i) i

-- `resource_args.get(&i)`
unfoldable pub kind_of : List (ℕ × ResourceKind) → ℕ → Option ResourceKind
kind_of [] i = none
kind_of ((j, kind) ∷ args) i = if j == i then some kind else kind_of args i

abbrev pub extern_ref_ty : Segments → Ty
extern_ref_ty cr = path (join cr (text "ExternRef"))

abbrev pub output_name : Str
output_name = text "__output"

-- What follows the call: its value, nothing, or a conversion of `__output`.
pub data Tail : Type 0 where
  value : Tail
  statement : Tail
  convert : Code → Tail

-- A generated function: `callee` is called on `args`. An import's wrapper calls the guard first.
pub record Wrapper : Type 0 where
  pub attr : Attribute
  pub vis : Visibility
  pub sig : Signature
  pub guarded : Bool
  pub callee : Str
  pub args : List Code
  pub tail : Tail

-- The loop over the inputs in `wrap_export`, and the one in `wrap_import`.
module _ (cr : Segments) (resource_args : List (ℕ × ResourceKind)) where
  abbrev pub export_arg : ℕ → Ty → Option ResourceKind → FnArg × Code
  export_arg i ty none = (typed (ident_pat (arg_name i)) ty, var (arg_name i))
  export_arg i ty (some kind) = (
    typed (ident_pat (arg_name i)) (extern_ref_ty cr),
    initialize_for_export kind (arg_name i) cr,
  )

  unfoldable pub export_inputs : ℕ → List FnArg → List FnArg × List Code
  export_inputs i [] = ([], [])
  export_inputs i (receiver k ∷ inputs) =
      let rest = export_inputs (i + 1) inputs in (receiver k ∷ rest.0, rest.1)
  export_inputs i (typed pat ty ∷ inputs) =
      let rest = export_inputs (i + 1) inputs in
      let arg = export_arg i ty (kind_of resource_args i) in (arg.0 ∷ rest.0, arg.1 ∷ rest.1)

  abbrev pub import_arg : ℕ → Option ResourceKind → Code
  import_arg i none = var (arg_name i)
  import_arg i (some kind) = prepare_for_import kind (arg_name i) cr

  unfoldable pub import_inputs : ℕ → List FnArg → List FnArg × List Code
  import_inputs i [] = ([], [])
  import_inputs i (receiver k ∷ inputs) =
      let rest = import_inputs (i + 1) inputs in (receiver k ∷ rest.0, rest.1)
  import_inputs i (typed pat ty ∷ inputs) =
      let rest = import_inputs (i + 1) inputs in
      (typed (ident_pat (arg_name i)) ty ∷ rest.0, import_arg i (kind_of resource_args i) ∷ rest.1)

abbrev pub export_output : Segments → ReturnType → Output → Output
export_output cr (resource kind) output = returns (extern_ref_ty cr)
export_output cr _ output = output

abbrev pub export_tail : Segments → ReturnType → Tail
export_tail cr (resource kind) = convert (prepare_for_import kind output_name cr)
export_tail cr not_resource = value
export_tail cr default = statement

abbrev pub import_tail : Segments → ReturnType → Tail
import_tail cr (resource kind) = convert (initialize_for_export kind output_name cr)
import_tail cr not_resource = value
import_tail cr default = statement

abbrev pub named : Str → Str → Attribute
named attr name = record { ident = some attr; meta = name_value (lit_str name) }

-- `#[inline(never)]`
abbrev pub inline_never : Attribute
inline_never = record { ident = some (text "inline"); meta = list (ok (other_meta 0 ∷ [])) }

abbrev pub attr_or : Option Attribute → Attribute → Attribute
attr_or (some attr) other = attr
attr_or none other = other

unfoldable pub wrap_export : Function → ItemFn → Option Attribute → Wrapper
wrap_export self raw export_name =
    let inputs = export_inputs self.crate_path self.resource_args 0 raw.sig.inputs in
    record {
      attr = attr_or export_name (named (text "export_name") raw.sig.ident);
      vis = inherited;
      sig = record raw.sig {
        abi = some (record { name = some (text "C") });
        unsafety = true;
        ident = text "__externref_export";
        inputs = inputs.0;
        output = export_output self.crate_path self.return_type raw.sig.output;
      };
      guarded = false;
      callee = raw.sig.ident;
      args = inputs.1;
      tail = export_tail self.crate_path self.return_type;
    }

-- `wrap_import`, with the new name of the import.
unfoldable pub wrap_import : Function → Visibility → Signature → Wrapper × Str
wrap_import self vis sig =
    let new_ident = text "__externref_" ++ sig.ident in
    let inputs = import_inputs self.crate_path self.resource_args 0 sig.inputs in
    (
      record {
        attr = inline_never;
        vis = vis;
        sig = record sig { unsafety = true; inputs = inputs.0 };
        guarded = true;
        callee = new_ident;
        args = inputs.1;
        tail = import_tail self.crate_path self.return_type;
      },
      new_ident,
    )

abbrev pub put_first :
    Attribute → Option Attribute × List Attribute → Option Attribute × List Attribute
put_first attr (found, rest) = (found, attr ∷ rest)

-- `function.attrs.remove(idx)` at the first attribute of a name, if there is one.
unfoldable pub remove_attr : List Attribute → Str → Option Attribute × List Attribute
remove_attr [] name = (none, [])
remove_attr (attr ∷ attrs) name =
    if is_ident attr.ident name then (some attr, attrs) else put_first attr (remove_attr attrs name)

-- `attrs.retain(|attr| !attr.path().is_ident(name))`
unfoldable pub without_attr : List Attribute → Str → List Attribute
without_attr [] name = []
without_attr (attr ∷ attrs) name =
    let rest = without_attr attrs name in if is_ident attr.ident name then rest else attr ∷ rest

-- What `for_export` writes: the function, its wrapper, and its declaration.
pub record Export : Type 0 where
  pub function : ItemFn
  pub export : Option Wrapper
  pub declaration : Option Declaration

unfoldable pub un_export : ItemFn → List Attribute → ItemFn
un_export function attrs = record function {
  sig = record function.sig { abi = none };
  attrs = without_attr attrs (text "no_mangle");
}

module _ (order : List ℕ → List ℕ) where
  unfoldable pub for_export : ItemFn → Segments → Outcome SynError Export
  unfolding un_export
  for_export function crate_path = do
    parsed ← new function crate_path
    let removed = remove_attr function.attrs (text "export_name")
    let bare = un_export function removed.1
    let wrapped : Export = record {
      function = bare;
      export = some (wrap_export parsed bare removed.0);
      declaration = some (declare order parsed none);
    }
    if needs_declaring parsed
        then ok wrapped
        else ok (record { function = function; export = none; declaration = none })
