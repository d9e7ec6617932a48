-- ===== src/Macro/Wrappers/Attributes.antt =====
-- The attributes of a function that `for_export` of crates/macro/src/externref.rs removes and keeps.
use externref.Prelude.{
  arith, ◌||◌, ◌⊎◌, ◌≡◌, refl, ap, Bool, true, false, List, [], ◌∷◌, Option, none, some, Bool-cases,
  inl, inr, if◌then◌else◌, Str, text,
}
use externref.Macro.Syntax.{Attribute, is_ident}
use externref.Macro.Wrappers.{remove_attr, without_attr}

-- The attributes of a name, and the list without its first element.
unfoldable pub named_attrs : List Attribute → Str → List Attribute
named_attrs [] name = []
named_attrs (attr ∷ attrs) name =
    let rest = named_attrs attrs name in if is_ident attr.ident name then attr ∷ rest else rest

abbrev pub behind_first : List Attribute → List Attribute
behind_first [] = []
behind_first (attr ∷ attrs) = attrs

abbrev pub is_exporting : Attribute → Bool
is_exporting attr =
    is_ident attr.ident (text "export_name") || is_ident attr.ident (text "no_mangle")

-- The attributes of other names.
unfoldable pub others : List Attribute → List Attribute
others [] = []
others (attr ∷ attrs) = let rest = others attrs in if is_exporting attr then rest else attr ∷ rest

pub named_attrs-remove_attr :
    (attrs : List Attribute) (name : Str)
    → named_attrs (remove_attr attrs name).1 name ≡ behind_first (named_attrs attrs name)
unfolding named_attrs remove_attr
named_attrs-remove_attr [] name = refl
named_attrs-remove_attr (attr ∷ attrs) name = elim (Bool-cases (is_ident attr.ident name)) [
  | inl yes_ ↦ rw yes_ refl
  | inr no_ ↦ rw (no_, no_) (named_attrs-remove_attr attrs name)
]

not_mangle :
    (ident : Option Str)
    → is_ident ident (text "export_name") ≡ true
    → is_ident ident (text "no_mangle") ≡ false
unfolding is_ident
not_mangle none h = cc
not_mangle (some []) h = refl
not_mangle (some (a ∷ s)) h = ground arith

-- An attribute has at most one of the two names.
abbrev Named : Option Str → Bool → Bool → Type 0
Named ident exports_ mangles =
    (is_ident ident (text "export_name") ≡ exports_) × (is_ident ident (text "no_mangle") ≡ mangles)

name_cases :
    (ident : Option Str)
    → Named ident true false ⊎ (Named ident false true ⊎ Named ident false false)
name_cases ident = elim (Bool-cases (is_ident ident (text "export_name"))) [
  | inl yes_ ↦ inl (yes_, not_mangle ident yes_)
  | inr no_ ↦ elim (Bool-cases (is_ident ident (text "no_mangle"))) [
    | inl mangle ↦ inr (inl (no_, mangle))
    | inr differs ↦ inr (inr (no_, differs))
  ]
]

pub named_attrs-without_attr :
    (attrs : List Attribute)
    → named_attrs (without_attr attrs (text "no_mangle")) (text "export_name")
      ≡ named_attrs attrs (text "export_name")
unfolding named_attrs without_attr
named_attrs-without_attr [] = refl
named_attrs-without_attr (attr ∷ attrs) =
    let rest = named_attrs-without_attr attrs in
    elim (name_cases attr.ident) [
      | inl (yes_, no_) ↦ rw (no_, yes_) (ap (◌∷◌ attr) rest)
      | inr (inl (no_, yes_)) ↦ rw (yes_, no_) rest
      | inr (inr (no_, differs)) ↦ rw (differs, no_) rest
    ]

pub others-remove_attr :
    (attrs : List Attribute) → others (remove_attr attrs (text "export_name")).1 ≡ others attrs
unfolding others remove_attr
others-remove_attr [] = refl
others-remove_attr (attr ∷ attrs) =
    let rest = others-remove_attr attrs in
    elim (name_cases attr.ident) [
      | inl (yes_, no_) ↦ rw yes_ refl
      | inr (inl (no_, yes_)) ↦ rw (no_, yes_, no_) rest
      | inr (inr (no_, differs)) ↦ rw (no_, differs, no_) (ap (◌∷◌ attr) rest)
    ]

pub others-without_attr :
    (attrs : List Attribute) → others (without_attr attrs (text "no_mangle")) ≡ others attrs
unfolding others without_attr
others-without_attr [] = refl
others-without_attr (attr ∷ attrs) =
    let rest = others-without_attr attrs in
    elim (name_cases attr.ident) [
      | inl (yes_, no_) ↦ rw (no_, yes_) rest
      | inr (inl (no_, yes_)) ↦ rw (yes_, no_) rest
      | inr (inr (no_, differs)) ↦ rw (differs, no_, differs) (ap (◌∷◌ attr) rest)
    ]
