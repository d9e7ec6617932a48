-- ===== src/Macro/Imports/Linked.antt =====
-- What becomes of the functions of a foreign module.
use externref.Prelude.{
  ℕ, ◌≡◌, refl, true, false, List, [], ◌∷◌, ◌++◌, map, Option, none, some, Option-cases, Bool-cases,
  subst, ok-inj, inl, inr, Outcome, ok, >>=-eq-ok, >>-eq-ok, Str, text,
}
use externref.Macro.Syntax.{
  Segments, Expr, SynError, Meta, word, list, name_value, Attribute, inherited, ForeignItemFn,
  ForeignItem, fn_item, other_item, ItemForeignMod, is_ident,
}
use externref.Macro.Function.{
  Function, find_attr, require_name_value, attr_expr, name_or, from_sig, needs_declaring, check_abi,
  declare,
}
use externref.Macro.Wrappers.{named, Wrapper, wrap_import}
use externref.Macro.Imports.{
  Import, link_attrs, renamed, prepend, change_fn, change_items, imports_new, module_name_of,
  for_foreign_module, ForeignExpansion,
}

-- An item that is changed, and what is generated for it.
pub record Linked (cr : Segments) (item item' : ForeignItemFn) (function : Function) (w : Wrapper)
    : Type 0 where
  pub link_name : attr_expr item'.attrs (text "link_name") ≡ ok (some function.name)
  pub named_from :
      (e : Option Expr) × (attr_expr item.attrs (text "link_name") ≡ ok e)
      × (function ≡ from_sig item.sig e cr)
  pub declared : needs_declaring function ≡ true
  pub callee : w.callee ≡ item'.sig.ident
  pub guarded : w.guarded ≡ true
  pub ident : w.sig.ident ≡ item.sig.ident
  pub vis : w.vis ≡ item.vis
  pub hidden : item'.vis ≡ inherited

-- The items of a module before and after, with what is generated.
pub data Transformed (cr : Segments)
    : List ForeignItem → List ForeignItem → List Import → Type 0 where
  done : Transformed cr [] [] []
  skip_item :
      (k : ℕ) {items items' : List ForeignItem} {functions : List Import}
      → Transformed cr items items' functions
      → Transformed cr (other_item k ∷ items) (other_item k ∷ items') functions
  skip_fn :
      (item : ForeignItemFn) (e : Option Expr) {items items' : List ForeignItem}
      {functions : List Import}
      → attr_expr item.attrs (text "link_name") ≡ ok e
      → needs_declaring (from_sig item.sig e cr) ≡ false
      → Transformed cr items items' functions
      → Transformed cr (fn_item item ∷ items) (fn_item item ∷ items') functions
  wrap_fn :
      (item item' : ForeignItemFn) (function : Function) (w : Wrapper)
      {items items' : List ForeignItem} {functions : List Import}
      → Linked cr item item' function w
      → Transformed cr items items' functions
      → Transformed cr (fn_item item ∷ items) (fn_item item' ∷ items') ((function, w) ∷ functions)

find_attr-append :
    (attrs : List Attribute) (attr : Attribute) (name : Str)
    → find_attr attrs name ≡ none
    → is_ident attr.ident name ≡ true
    → find_attr (attrs ++ (attr ∷ [])) name ≡ some attr
unfolding find_attr
find_attr-append [] attr name h same = rw same
find_attr-append (a ∷ attrs) attr name h same = elim (Bool-cases (is_ident a.ident name)) [
  | inl yes_ ↦ let bad : some a ≡ none = rw yes_ at h in cc
  | inr no_ ↦ rw no_ (find_attr-append attrs attr name (rw no_ at h) same)
]

-- The name under which the changed item is linked is the name that is declared.
attr_expr-link_attrs :
    (attrs : List Attribute) (ident : Str) (e : Option Expr)
    → attr_expr attrs (text "link_name") ≡ ok e
    → attr_expr (link_attrs e ident attrs) (text "link_name") ≡ ok (some (name_or e ident))
unfolding attr_expr is_ident
attr_expr-link_attrs attrs ident (some e) h = h
attr_expr-link_attrs attrs ident none h = elim (Option-cases (find_attr attrs (text "link_name"))) [
  | inl none_ ↦ rw (
    attr_expr,
    find_attr-append attrs (named (text "link_name") ident) (text "link_name") none_ refl,
  )
  | inr (attr, found) ↦
      absurd (some_value (text "link_name") attr.meta (rw (attr_expr, found) at h))
]
  where
    some_value : (name : Str) (meta : Meta) → require_name_value name meta ≡ ok none → ⊥
    some_value name word q = cc
    some_value name (list metas) q = cc
    some_value name (name_value x) q = differ x (some_none x q)
      where
        some_none :
            (x : Expr)
            → ◌≡◌ {A = Outcome SynError (Option Expr)} (ok (some x)) (ok none)
            → some x ≡ none
        some_none x q = cc

        differ : (x : Expr) → some x ≡ none → ⊥
        differ x q = cc

renamed-Linked :
    (cr : Segments) (item : ForeignItemFn) (e : Option Expr)
    → attr_expr item.attrs (text "link_name") ≡ ok e
    → needs_declaring (from_sig item.sig e cr) ≡ true
    → Linked cr item
        (renamed cr e
          (from_sig item.sig e cr)
          (wrap_import (from_sig item.sig e cr) item.vis item.sig).1
          item)
        (from_sig item.sig e cr)
        (wrap_import (from_sig item.sig e cr) item.vis item.sig).0
unfolding renamed wrap_import from_sig
renamed-Linked cr item e h needs = record {
  link_name = attr_expr-link_attrs item.attrs item.sig.ident e h;
  named_from = (e, h, refl);
  declared = needs;
  callee = refl;
  guarded = refl;
  ident = refl;
  vis = refl;
  hidden = refl;
}

change_fn-Transformed :
    (cr : Segments) (item : ForeignItemFn) (out : ForeignItemFn × Option Import)
    {items items' : List ForeignItem} {functions : List Import}
    → change_fn cr item ≡ ok out
    → Transformed cr items items' functions
    → Transformed cr
        (fn_item item ∷ items)
        (prepend (fn_item out.0) out.1 (items', functions)).0
        (prepend (fn_item out.0) out.1 (items', functions)).1
unfolding change_fn
change_fn-Transformed cr item out {items} {items'} {functions} h rest =
    let (e, read, made) = >>=-eq-ok (attr_expr item.attrs (text "link_name")) _ h in
    let f = from_sig item.sig e cr in
    let wrapped = wrap_import f item.vis item.sig in
    elim (Bool-cases (needs_declaring f)) [
      | inl yes_ ↦
          let made' : ◌≡◌ {A = Outcome SynError (ForeignItemFn × Option Import)}
              (ok (renamed cr e f wrapped.1 item, some (f, wrapped.0))) (ok out) =
            rw yes_ at made in
          let same : (renamed cr e f wrapped.1 item, some (f, wrapped.0)) ≡ out = cc in
          subst Goal same (wrap_fn item _ f wrapped.0 (renamed-Linked cr item e read yes_) rest)
      | inr no_ ↦
          let made' : ◌≡◌ {A = Outcome SynError (ForeignItemFn × Option Import)} (ok (item, none))
              (ok out) =
            rw no_ at made in
          let same : (item, none) ≡ out = cc in subst Goal same (skip_fn item e read no_ rest)
    ]
  where
    Goal : ForeignItemFn × Option Import → Type 0
    Goal o =
        Transformed cr (fn_item item ∷ items) (prepend (fn_item o.0) o.1 (items', functions)).0
          (prepend (fn_item o.0) o.1 (items', functions)).1

change_items-Transformed :
    (cr : Segments) (items : List ForeignItem) (out : List ForeignItem × List Import)
    → change_items cr items ≡ ok out
    → Transformed cr items out.0 out.1
unfolding change_items
change_items-Transformed cr [] out h =
    let same : ([], []) ≡ out = ok-inj h in subst (λ o. Transformed cr [] o.0 o.1) same done
change_items-Transformed cr (other_item k ∷ items) out h =
    let (rest, read, made) = >>=-eq-ok (change_items cr items) _ h in
    subst (λ o. Transformed cr (other_item k ∷ items) o.0 o.1) (ok-inj made)
      (skip_item k (change_items-Transformed cr items rest read))
change_items-Transformed cr (fn_item item ∷ items) out h =
    let (changed, read, more) = >>=-eq-ok (change_fn cr item) _ h in
    let (rest, done_, made) = >>=-eq-ok (change_items cr items) _ more in
    subst (λ o. Transformed cr (fn_item item ∷ items) o.0 o.1) (ok-inj made)
      (change_fn-Transformed cr item changed read (change_items-Transformed cr items rest done_))

-- If a foreign module is expanded without an error, then its items are changed one by one: a function that needs a
-- declaration becomes an import without visibility that is linked under the declared name, and gets a wrapper of
-- its old name and visibility, which calls it after the guard; every other item is left as it was. The attributes
-- stay. The declarations are those of the functions that were changed, in order, for the module that the `link`
-- attribute names.
pub for_foreign_module-Transformed :
    (order : List ℕ → List ℕ) (foreign_mod : ItemForeignMod) (cr : Segments)
    (out : ForeignExpansion)
    → for_foreign_module order foreign_mod cr ≡ ok out
    → (module_name : Str) × (functions : List Import) × (module_name_of foreign_mod.attrs
        ≡ ok module_name)
      × Transformed cr foreign_mod.items out.foreign_mod.items functions
      × (out.foreign_mod.attrs ≡ foreign_mod.attrs)
      × (out.declarations ≡ map (λ f. declare order f.0 (some module_name)) functions)
      × (out.wrappers ≡ map (λ f. f.1) functions)
unfolding for_foreign_module imports_new
for_foreign_module-Transformed order foreign_mod cr out h =
    let (parsed, new_, made) = >>=-eq-ok (imports_new foreign_mod cr) _ h in
    let (_, more) = >>-eq-ok (check_abi (text "foreign module") foreign_mod.abi.name) _ new_ in
    let (module_name, read, changing) = >>=-eq-ok (module_name_of foreign_mod.attrs) _ more in
    let (changed, items_, last) = >>=-eq-ok (change_items cr foreign_mod.items) _ changing in
    let parsed_ : (
      record foreign_mod { items = changed.0 },
      record { module_name = module_name; functions = changed.1 },
    )
        ≡ parsed =
      ok-inj last in
    let out_ = ok-inj made in
    (
      module_name,
      changed.1,
      read,
      rw (← out_, ← parsed_) (change_items-Transformed cr foreign_mod.items changed items_),
      rw (← out_, ← parsed_),
      rw (← out_, ← parsed_),
      rw (← out_, ← parsed_),
    )
