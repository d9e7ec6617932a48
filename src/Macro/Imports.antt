-- ===== src/Macro/Imports.antt =====
-- Foreign modules: `Imports` and `for_foreign_module` of crates/macro/src/externref.rs, and the attribute's entry in
-- crates/macro/src/lib.rs.
pub mod Linked
use externref.Prelude.{
  ℕ, zero, suc, ◌+◌, Bool, true, false, List, [], ◌∷◌, ◌++◌, map, Option, none, some, if◌then◌else◌,
  Outcome, ok, err, fault, ◌>>=◌, ◌>>◌, Str, text, str_eq,
}
use externref.Macro.Syntax.{
  Ty, Segments, end, segment, no_arguments, Expr, lit_str, other_expr, SynError, no_module_name,
  link_not_a_list, module_name_not_a_string, unsupported_attribute, unsupported_item, syntax,
  NestedMeta, nested_value, other_meta, Meta, word, list, name_value, Attribute, FnArg, receiver,
  typed, Output, default_output, returns, Abi, inherited, Signature, ItemFn, ForeignItemFn,
  ForeignItem, fn_item, other_item, ItemForeignMod, is_ident, join,
}
use externref.Macro.Kinds.{ResourceKind}
use externref.Macro.Function.{
  ReturnType, Function, check_abi, find_attr, attr_expr, from_sig, needs_declaring, Declaration,
  declare,
}
use externref.Macro.Wrappers.{
  kind_of, extern_ref_ty, export_output, named, Wrapper, wrap_import, Export, for_export,
}

-- The first `wasm_import_module = value` among the metas of `#[link(..)]`.
unfoldable pub find_module : List NestedMeta → Option Expr
find_module [] = none
find_module (nested_value ident value ∷ metas) =
    if is_ident ident (text "wasm_import_module") then some value else find_module metas
find_module (other_meta k ∷ metas) = find_module metas

abbrev pub nested_metas : Meta → Outcome SynError (List NestedMeta)
nested_metas (list metas) = metas
nested_metas word = err link_not_a_list
nested_metas (name_value e) = err link_not_a_list

abbrev pub require_link : Option Attribute → Outcome SynError Attribute
require_link none = err no_module_name
require_link (some attr) = ok attr

abbrev pub require_module : Option Expr → Outcome SynError Str
require_module none = err no_module_name
require_module (some (lit_str name)) = ok name
require_module (some (other_expr k)) = err module_name_not_a_string

-- The module's name, from its attributes.
unfoldable pub module_name_of : List Attribute → Outcome SynError Str
module_name_of attrs = do
  link_attr ← require_link (find_attr attrs (text "link"))
  nested ← nested_metas link_attr.meta
  require_module (find_module nested)

-- The types of an import's resource arguments are changed; their patterns stay.
module _ (cr : Segments) (resource_args : List (ℕ × ResourceKind)) where
  abbrev pub foreign_ty : Ty → Option ResourceKind → Ty
  foreign_ty ty none = ty
  foreign_ty ty (some kind) = extern_ref_ty cr

  unfoldable pub foreign_inputs : ℕ → List FnArg → List FnArg
  foreign_inputs i [] = []
  foreign_inputs i (receiver k ∷ inputs) = receiver k ∷ foreign_inputs (i + 1) inputs
  foreign_inputs i (typed pat ty ∷ inputs) =
      typed pat (foreign_ty ty (kind_of resource_args i)) ∷ foreign_inputs (i + 1) inputs

-- `#[link_name = ".."]` is added if the function has none, since the function is renamed.
abbrev pub link_attrs : Option Expr → Str → List Attribute → List Attribute
link_attrs none ident attrs = attrs ++ (named (text "link_name") ident ∷ [])
link_attrs (some e) ident attrs = attrs

-- The import that stands in the foreign module after the change.
unfoldable pub renamed : Segments → Option Expr → Function → Str → ForeignItemFn → ForeignItemFn
renamed cr link_name function new_ident item = record {
  attrs = link_attrs link_name item.sig.ident item.attrs;
  vis = inherited;
  sig = record item.sig {
    ident = new_ident;
    inputs = foreign_inputs cr function.resource_args 0 item.sig.inputs;
    output = export_output cr function.return_type item.sig.output;
  };
}

-- A function of the module that needs a declaration, with its wrapper.
abbrev pub Import : Type 0
Import = Function × Wrapper

abbrev pub prepend :
    ForeignItem → Option Import → List ForeignItem × List Import → List ForeignItem × List Import
prepend item none (items, functions) = (item ∷ items, functions)
prepend item (some f) (items, functions) = (item ∷ items, f ∷ functions)

-- One round of the loop over the items, and the loop. The first error ends it.
unfoldable pub change_fn :
    Segments → ForeignItemFn → Outcome SynError (ForeignItemFn × Option Import)
change_fn cr item = do
  link_name ← attr_expr item.attrs (text "link_name")
  let function = from_sig item.sig link_name cr
  let wrapped = wrap_import function item.vis item.sig
  let changed : ForeignItemFn × Option Import =
      (renamed cr link_name function wrapped.1 item, some (function, wrapped.0))
  if needs_declaring function then ok changed else ok (item, none)

unfoldable pub change_items :
    Segments → List ForeignItem → Outcome SynError (List ForeignItem × List Import)
change_items cr [] = ok ([], [])
change_items cr (other_item k ∷ items) = do
  rest ← change_items cr items
  ok (prepend (other_item k) none rest)
change_items cr (fn_item item ∷ items) = do
  changed ← change_fn cr item
  rest ← change_items cr items
  ok (prepend (fn_item changed.0) changed.1 rest)

pub record Imports : Type 0 where
  pub module_name : Str
  pub functions : List Import

-- `Imports::new`, with the module that it leaves behind.
unfoldable pub imports_new : ItemForeignMod → Segments → Outcome SynError (ItemForeignMod × Imports)
imports_new foreign_mod cr = do
  check_abi (text "foreign module") foreign_mod.abi.name
  module_name ← module_name_of foreign_mod.attrs
  changed ← change_items cr foreign_mod.items
  ok (
    record foreign_mod { items = changed.0 },
    record { module_name = module_name; functions = changed.1 },
  )

-- What `for_foreign_module` writes.
pub record ForeignExpansion : Type 0 where
  pub foreign_mod : ItemForeignMod
  pub declarations : List Declaration
  pub wrappers : List Wrapper

-- What the attribute stands on.
pub data Item : Type 0 where
  foreign_module : ItemForeignMod → Item
  function : ItemFn → Item
  other : ℕ → Item

pub data Expansion : Type 0 where
  expanded_module : ForeignExpansion → Expansion
  expanded_export : Export → Expansion

-- A meta of the attribute: its name if it is one identifier, and its value read as a string that holds a path.
pub record AttrMeta : Type 0 where
  pub ident : Option Str
  pub crate_value : Outcome SynError Segments

pub record ExternrefAttrs : Type 0 where
  pub crate_path : Option Segments

-- `ExternrefAttrs::parse`, on the metas of the attribute as syn reads one after the other. An attribute without
-- tokens has none.
unfoldable pub parse_metas :
    List (Outcome SynError AttrMeta) → ExternrefAttrs → Outcome SynError ExternrefAttrs
parse_metas [] attrs = ok attrs
parse_metas (next ∷ metas) attrs = do
  meta ← next
  let known = (meta.crate_value >>= λ cr. parse_metas metas (record { crate_path = some cr }))
  if is_ident meta.ident (text "crate") then known else err unsupported_attribute

abbrev pub parse_attrs : List (Outcome SynError AttrMeta) → Outcome SynError ExternrefAttrs
parse_attrs metas = parse_metas metas (record { crate_path = none })

abbrev pub path_or : Option Segments → Segments
path_or (some cr) = cr
path_or none = segment (text "externref") no_arguments end

-- `ExternrefAttrs::crate_path`
unfoldable pub crate_path : ExternrefAttrs → Segments
crate_path attrs = path_or attrs.crate_path

module _ (order : List ℕ → List ℕ) where
  abbrev pub declarations : Imports → List Declaration
  declarations self = map (λ f. declare order f.0 (some self.module_name)) self.functions

  abbrev pub wrappers : Imports → List Wrapper
  wrappers self = map (λ f. f.1) self.functions

  unfoldable pub for_foreign_module : ItemForeignMod → Segments → Outcome SynError ForeignExpansion
  for_foreign_module foreign_mod cr = do
    parsed ← imports_new foreign_mod cr
    ok (record {
      foreign_mod = parsed.0;
      declarations = declarations parsed.1;
      wrappers = wrappers parsed.1;
    })

  -- `externref` of crates/macro/src/lib.rs, on the parsed item.
  unfoldable pub externref_attr :
      List (Outcome SynError AttrMeta) → Outcome SynError Item → Outcome SynError Expansion
  externref_attr metas input = do
    attrs ← parse_attrs metas
    item ← input
    elim item [
      | foreign_module m ↦ for_foreign_module m (crate_path attrs) >>= λ e. ok (expanded_module e)
      | function f ↦ for_export order f (crate_path attrs) >>= λ e. ok (expanded_export e)
      | other k ↦ err unsupported_item
    ]
