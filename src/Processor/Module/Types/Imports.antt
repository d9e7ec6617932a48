-- ===== src/Processor/Module/Types/Imports.antt =====
-- The types of imported functions after the first loop of `process_functions` of
-- crates/lib/src/processor/state.rs.
use externref.Prelude.{
  ℕ, ◌≡◌, refl, sym, ap, subst, ◌∙◌, Bool, true, false, List, [], ◌∷◌, Option, none, some, ◌==◌,
  if◌then◌else◌, Outcome, ok, fault, ◌>>=◌, >>=-eq-ok, ok-inj, or_fault, Str, inl, inr, Bool-cases,
  Option-cases, ==→eq, arith,
}
use externref.Signature.Types.{Function, FunctionKind, export, import}
use externref.Processor.Ir.{FunctionId}
use externref.Processor.Error.{Error}
use externref.Processor.Types.{FuncType, patch_type_inner}
use externref.Processor.Module.{
  Func, imported_fn, local_fn, Funcs, func, set_func, transform_import, transform_if_import,
  process_imports, returns_last, type_of, add_id,
}
use externref.Processor.Module.Types.{Declarations, patch_of, patch_import, import_type, Imported}

Imported-id :
    (p : FuncType → Outcome Error FuncType) (o : Option Func)
    → ((t : FuncType) → p t ≡ ok t)
    → Imported p o o
Imported-id p none h = refl
Imported-id p (some (imported_fn t)) h = (t, refl, h t)
Imported-id p (some (local_fn self)) h = refl

Imported->>= :
    (p q : FuncType → Outcome Error FuncType) (a b c : Option Func)
    → Imported p a b
    → Imported q b c
    → Imported (λ t. p t >>= q) a c
Imported->>= p q none b c h k = subst (λ o. Imported q o c) h k
Imported->>= p q (some (imported_fn t)) b c (t₁, e, h) k =
    let (t₂, e', h') = subst (λ o. Imported q o c) e k in (t₂, e', rw h h')
Imported->>= p q (some (local_fn self)) b c h k = subst (λ o. Imported q o c) h k

if_again {ℓ} :
    {A : Type ℓ} (b : Bool) (x y z : A)
    → (if b then x else z) ≡ (if b then x else if b then y else z)
if_again true x y z = refl
if_again false x y z = refl

==_other : (a b c : ℕ) → (a == b) ≡ false → (a == c) ≡ true → (b == c) ≡ false
==_other a b c h k = ground arith

func-set_func :
    (funcs : Funcs) (f g : FunctionId) (k k' : Func)
    → func funcs f ≡ some k
    → func (set_func funcs f k') g ≡ (if f == g then some k' else func funcs g)
unfolding func set_func
func-set_func [] f g k k' h = cc
func-set_func ((i, j) ∷ funcs) f g k k' h = elim (Bool-cases (i == f)) [
  | inl same ↦
      let e : i ≡ f = ==→eq i f same in
      rw (same, e) (if_again (f == g) (some k') (some j) (func funcs g))
  | inr other ↦ elim (Bool-cases (i == g)) [
    | inl same ↦ rw (other, same, ==_other i f g other same) refl
    | inr differs ↦ rw (other, differs) (func-set_func funcs f g k k' (rw other at h))
  ]
]

-- One declaration.
abbrev on :
    FunctionId
    → FunctionId
    → (FuncType → Outcome Error FuncType)
    → FuncType
    → Outcome Error FuncType
on f g p t = if f == g then p t else ok t

set_func-Imported :
    (funcs : Funcs) (f g : FunctionId) (p : FuncType → Outcome Error FuncType) (t t' : FuncType)
    → func funcs f ≡ some (imported_fn t)
    → p t ≡ ok t'
    → Imported (on f g p) (func funcs g) (func (set_func funcs f (imported_fn t')) g)
set_func-Imported funcs f g p t t' found patched =
    let e = func-set_func funcs f g (imported_fn t) (imported_fn t') found in
    elim (Bool-cases (f == g)) [
      | inl here_ ↦
          let at_ : func funcs g ≡ some (imported_fn t) =
            ap (func funcs) (sym (==→eq f g here_)) ∙ found in
          rw (at_, here_) (t', e ∙ rw here_ refl, patched)
      | inr other ↦ rw (e, other) (Imported-id (on f g p) (func funcs g) (λ t₁. rw other refl))
    ]

transform_import-Imported :
    (funcs funcs' : Funcs) (declared : Function) (f g : FunctionId)
    → transform_import funcs declared f ≡ ok funcs'
    → Imported (on f g (patch_type_inner declared)) (func funcs g) (func funcs' g)
unfolding transform_import
transform_import-Imported funcs funcs' declared f g h = elim (Option-cases (func funcs f)) [
  | inl none_ ↦
      let h' : ◌≡◌ {A = Outcome Error Funcs} fault (ok funcs') =
        rw (transform_import, none_) at h in
      cc
  | inr (local_fn self, found) ↦
      let h' : ◌≡◌ {A = Outcome Error Funcs} fault (ok funcs') =
        rw (transform_import, found) at h in
      cc
  | inr (imported_fn t, found) ↦
      let h' : (patch_type_inner declared t >>= λ t'. ok (set_func funcs f (imported_fn t')))
          ≡ ok funcs' =
        rw (transform_import, found) at h in
      let (t', patched, made) = >>=-eq-ok (patch_type_inner declared t) _ h' in
      subst
        (λ (fs : Funcs). Imported (on f g (patch_type_inner declared)) (func funcs g) (func fs g))
        (ok-inj made) (set_func-Imported funcs f g (patch_type_inner declared) t t' found patched)
]

if_ok :
    (b : Bool) (t : FuncType) → ◌≡◌ {A = Outcome Error FuncType} (if b then ok t else ok t) (ok t)
if_ok true t = refl
if_ok false t = refl

import_of :
    (funcs funcs' : Funcs) (declared : Function) (f : FunctionId) (module_name : Str)
    → declared.kind ≡ import module_name
    → transform_if_import funcs declared f ≡ ok funcs'
    → transform_import funcs declared f ≡ ok funcs'
unfolding transform_if_import
import_of funcs funcs' declared f m e h =
    sym (
      ap
        (λ (k : FunctionKind). elim k as (λ _. Outcome Error Funcs) [
          | export ↦ ok funcs
          | import module_name ↦ transform_import funcs declared f
        ])
        e)
    ∙ h

transform_if_import-Imported :
    (funcs funcs' : Funcs) (declared : Function) (f g : FunctionId)
    → transform_if_import funcs declared f ≡ ok funcs'
    → Imported (on f g (patch_import declared)) (func funcs g) (func funcs' g)
unfolding transform_if_import
transform_if_import-Imported funcs funcs' declared f g h = of_kind declared.kind refl
  where
    of_kind :
        (kind : FunctionKind)
        → declared.kind ≡ kind
        → Imported (on f g (patch_import declared)) (func funcs g) (func funcs' g)
    of_kind export e =
        let same : ◌≡◌ {A = Outcome Error Funcs} (ok funcs) (ok funcs') =
          rw (transform_if_import, e) at h in
        subst (λ (fs : Funcs). Imported (on f g (patch_import declared)) (func funcs g) (func fs g))
          (ok-inj same)
          (Imported-id (on f g (patch_import declared)) (func funcs g)
            (λ t. ap (λ (k : FunctionKind). on f g (patch_of k declared) t) e ∙ if_ok (f == g) t))
    of_kind (import m) e =
        subst
          (λ (k : FunctionKind).
            Imported (on f g (patch_of k declared)) (func funcs g) (func funcs' g))
          (sym e)
          (transform_import-Imported funcs funcs' declared f g
            (import_of funcs funcs' declared f m e h))

-- The first loop.
pub process_imports-Imported :
    (ds : Declarations) (returning returning' : List FunctionId) (funcs funcs' : Funcs)
    (g : FunctionId)
    → process_imports ds returning funcs ≡ ok (returning', funcs')
    → Imported (import_type ds g) (func funcs g) (func funcs' g)
unfolding process_imports import_type
process_imports-Imported [] returning returning' funcs funcs' g h =
    let same : funcs ≡ funcs' = cc in
    subst (λ (fs : Funcs). Imported ok (func funcs g) (func fs g)) same
      (Imported-id ok (func funcs g) (λ t. refl))
process_imports-Imported ((none, declared) ∷ rest) returning returning' funcs funcs' g h =
    process_imports-Imported rest returning returning' funcs funcs' g h
process_imports-Imported ((some f, declared) ∷ rest) returning returning' funcs funcs' g h =
    let (k, _, h₁) = >>=-eq-ok (or_fault (func funcs f)) _ h in
    let (last, _, h₂) = >>=-eq-ok (returns_last declared (type_of k)) _ h₁ in
    let (funcs₁, done, h₃) = >>=-eq-ok (transform_if_import funcs declared f) _ h₂ in
    Imported->>= (on f g (patch_import declared)) (import_type rest g) (func funcs g)
      (func funcs₁ g) (func funcs' g) (transform_if_import-Imported funcs funcs₁ declared f g done)
      (process_imports-Imported rest (add_id last f returning) returning' funcs₁ funcs' g h₃)
