-- ===== src/Macro/Wrappers/Names.antt =====
-- The name that a declaration has is the name under which the function is exported.
use externref.Prelude.{
  ℕ, ◌≡◌, Bool, true, false, List, Option, none, some, if◌then◌else◌, ok, err, >>=-eq-ok, >>-eq-ok,
  text,
}
use externref.Macro.Syntax.{Segments, Expr, SynError, variadic_fn, name_value, ItemFn}
use externref.Macro.Function.{
  Function, find_attr, attr_expr, from_sig, new, declare, Declaration, abi_name, check_abi,
}
use externref.Macro.Wrappers.Attributes.{behind_first, named_attrs, others}
use externref.Macro.Wrappers.{Wrapper, Export, wrap_export, remove_attr, un_export, for_export}

-- What `new` read.
pub new-attr_expr :
    (function : ItemFn) (cr : Segments) (f : Function)
    → new function cr ≡ ok f
    → (e : Option Expr) × (attr_expr function.attrs (text "export_name") ≡ ok e)
      × (f ≡ from_sig function.sig e cr)
unfolding new
new-attr_expr function cr f h =
    let (_, h₁) = >>-eq-ok (check_abi (text "exported function") (abi_name function.sig.abi)) _ h in
    let (_, h₂) = >>-eq-ok (if function.sig.variadic then err variadic_fn else ok tt) _ h₁ in
    let (e, found, made) = >>=-eq-ok (attr_expr function.attrs (text "export_name")) _ h₂ in
    (e, found, cc made)

-- The export that `for_export` gives for a function that needs a declaration.
abbrev wrapped : (order : List ℕ → List ℕ) → Function → ItemFn → Export
wrapped order f function =
    let removed = remove_attr function.attrs (text "export_name") in
    let bare = un_export function removed.1 in
    record {
      function = bare;
      export = some (wrap_export f bare removed.0);
      declaration = some (declare order f none);
    }

-- What a reader of the expansion of `function` can see of it as it is written then, and of the wrapper and the
-- declaration that stand with it.
pub record Agrees (function bare : ItemFn) (w : Wrapper) (d : Declaration) : Type 0 where
  pub name : w.attr.meta ≡ name_value d.name
  pub callee : w.callee ≡ bare.sig.ident
  pub mangled : find_attr bare.attrs (text "no_mangle") ≡ none
  pub exported :
      named_attrs bare.attrs (text "export_name")
      ≡ behind_first (named_attrs function.attrs (text "export_name"))
  pub attrs_kept : others bare.attrs ≡ others function.attrs
  pub rest_kept :
      bare ≡ record function { sig = record function.sig { abi = none }; attrs = bare.attrs }
  pub is_export : d.module_name ≡ none

abbrev pub expansion : Bool → ItemFn → ItemFn → Wrapper → Declaration → Export
expansion true function bare w d = record { function = bare; export = some w; declaration = some d }
expansion false function bare w d = record {
  function = function;
  export = none;
  declaration = none;
}

-- An export that `new` refuses is an error, and nothing else is written.
pub for_export-err :
    (order : List ℕ → List ℕ) (function : ItemFn) (cr : Segments) (reason : SynError)
    → new function cr ≡ err reason
    → for_export order function cr ≡ err reason
unfolding for_export
for_export-err order function cr reason h = rw (for_export, h)
