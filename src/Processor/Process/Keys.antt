-- ===== src/Processor/Process/Keys.antt =====
-- The surrogates of a module, and the keys of the mapping that `PatchedFunctions::new` makes.
use externref.Prelude.{
  ◌≡◌, refl, sym, ap, ap₂, ◌∙◌, Bool, false, ◌||◌, [], ◌∷◌, ◌++◌, Option, none, some, ◌==◌,
  Bool-cases, inl, inr, or_false, or_assoc,
}
use externref.Processor.Ir.{FunctionId}
use externref.Processor.Calls.{ExternrefImports, FnMapping, mapped, entry, patched_functions}
use externref.Processor.Calls.Replaced.{is_key}

abbrev pub is_import : Option FunctionId → FunctionId → Bool
is_import none f = false
is_import (some g) f = g == f

-- The imports whose calls are replaced, and those with the guard.
abbrev pub is_replaced : ExternrefImports → FunctionId → Bool
is_replaced imports f =
    is_import imports.drop f || (is_import imports.get f || is_import imports.insert f)

abbrev pub is_surrogate : ExternrefImports → FunctionId → Bool
is_surrogate imports f = is_replaced imports f || is_import imports.guard f

is_key-cons :
    (k v : FunctionId) (m : FnMapping) (f : FunctionId)
    → is_key ((k, v) ∷ m) f ≡ (k == f || is_key m f)
unfolding mapped
is_key-cons k v m f = elim (Bool-cases (k == f)) [
  | inl yes_ ↦ rw (is_key, yes_)
  | inr no_ ↦ rw (is_key, no_)
]

is_key-append : (m n : FnMapping) (f : FunctionId) → is_key (m ++ n) f ≡ (is_key m f || is_key n f)
unfolding mapped
is_key-append [] n f = refl
is_key-append ((k, v) ∷ m) n f =
    is_key-cons k v (m ++ n) f
    ∙ ap (λ (b : Bool). k == f || b) (is_key-append m n f)
    ∙ or_assoc (k == f) (is_key m f) (is_key n f)
    ∙ ap (λ (b : Bool). b || is_key n f) (sym (is_key-cons k v m f))

is_key-entry : (o : Option FunctionId) (id f : FunctionId) → is_key (entry o id) f ≡ is_import o f
unfolding mapped
is_key-entry none id f = refl
is_key-entry (some g) id f = is_key-cons g id [] f ∙ or_false (g == f)

pub is_key-is_replaced :
    (imports : ExternrefImports) (i g d f : FunctionId)
    → is_key (patched_functions imports i g d).fn_mapping f ≡ is_replaced imports f
unfolding patched_functions
is_key-is_replaced imports i g d f =
    is_key-append (entry imports.drop d) (entry imports.get g ++ entry imports.insert i) f
    ∙ ap₂ (λ (a b : Bool). a || b) (is_key-entry imports.drop d f)
        (is_key-append (entry imports.get g) (entry imports.insert i) f
          ∙ ap₂ (λ (a b : Bool). a || b) (is_key-entry imports.get g f)
              (is_key-entry imports.insert i f))
