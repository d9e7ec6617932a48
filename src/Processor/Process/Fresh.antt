-- ===== src/Processor/Process/Fresh.antt =====
-- What is relied on in walrus: ids are not given twice, taking an import out changes no other, and garbage
-- collection adds no instructions. With it the functions that are built are new.
use externref.Prelude.{
  ℕ, ◌≡◌, Bool, false, List, Option, none, some, Option-cases, inl, inr, Outcome, ok, >>=-eq-ok,
  ok-inj, subst, Str, text, All,
}
use externref.Wasm.{Code}
use externref.Processor.Ir.{FunctionId}
use externref.Processor.Error.{Error}
use externref.Processor.Calls.{
  Item, function, not_function, Import, surrogate, taken_item, take_import, take_imports,
  ExternrefImports,
}
use externref.Processor.Types.{FuncType}
use externref.Processor.Process.{Bytes, Module, Arenas, export_table}
use externref.Processor.Process.Kept.{funcs_names}

-- An import's function has an id that was given.
abbrev pub ItemIssued : (FunctionId → Type 0) → Item → Type 0
ItemIssued issued (function f) = issued f
ItemIssued issued (not_function k) = Unit

pub record WalrusLaws (arenas : Arenas) : Type 1 where
  pub find_all :
      (P : Import → Type 0) (s name : Str) (is : List Import) (i : Import)
      → All P is
      → arenas.import_arena.find s name is ≡ some i
      → P i
  pub delete_all :
      (P : Import → Type 0) (s name : Str) (is : List Import)
      → All P is
      → All P (arenas.import_arena.delete s name is)
  pub Issued : Module → FunctionId → Type 0
  pub parts_keep :
      (m : Module) (customs : List (Str × Bytes)) (imports : List Import) (f : FunctionId)
      → Issued m f
      → Issued (record m { customs = customs; imports = imports }) f
  pub export_keeps :
      (m : Module) (name : Option Str) (id : ℕ) (f : FunctionId)
      → Issued m f
      → Issued (export_table arenas name id m) f
  pub table_keeps : (m : Module) (f : FunctionId) → Issued m f → Issued (arenas.add_table m).1 f
  pub delete_keeps :
      (g : FunctionId) (m : Module) (f : FunctionId)
      → Issued m f
      → Issued (arenas.delete_func g m) f
  pub import_keeps :
      (s name : Str) (ty : FuncType) (m : Module) (f : FunctionId)
      → Issued m f
      → Issued (arenas.add_import_func s name ty m).1 f
  pub finish_keeps :
      (ty : FuncType) (code : Code) (m : Module) (f : FunctionId)
      → Issued m f
      → Issued (arenas.finish ty code m).1 f
  pub finish_new :
      (ty : FuncType) (code : Code) (m : Module) → Issued m (arenas.finish ty code m).0 → ⊥
  pub gc_names :
      (calls refs : FunctionId → Bool) (m : Module)
      → funcs_names calls refs m.funcs ≡ false
      → funcs_names calls refs (arenas.gc m).funcs ≡ false

-- The old id of an entry.
abbrev pub Old : (FunctionId → Type 0) → Option FunctionId → Type 0
Old P none = Unit
Old P (some f) = P f

abbrev pub HasOld : (FunctionId → Type 0) → ExternrefImports → Type 0
HasOld P imports = Old P imports.insert × Old P imports.get × Old P imports.drop

pub Old-map :
    (P Q : FunctionId → Type 0) (o : Option FunctionId)
    → ((f : FunctionId) → P f → Q f)
    → Old P o
    → Old Q o
Old-map P Q none f h = tt
Old-map P Q (some g) f h = f g h

pub HasOld-map :
    (P Q : FunctionId → Type 0) (imports : ExternrefImports)
    → ((f : FunctionId) → P f → Q f)
    → HasOld P imports
    → HasOld Q imports
HasOld-map P Q imports f (i, g, d) =
    (Old-map P Q imports.insert f i, Old-map P Q imports.get f g, Old-map P Q imports.drop f d)

module _ (arenas : Arenas) (laws : WalrusLaws arenas) where
  take_import-Old :
      (P : FunctionId → Type 0) (imports : List Import) (name : Str)
      (out : Option FunctionId × List Import)
      → All (λ i. ItemIssued P i.item) imports
      → take_import arenas.import_arena imports name ≡ ok out
      → Old P out.0 × All (λ i. ItemIssued P i.item) out.1
  unfolding take_import
  take_import-Old P imports name out all h =
      elim (Option-cases (arenas.import_arena.find surrogate name imports)) [
        | inl none_ ↦
            let h' : ◌≡◌ {A = Outcome Error (Option FunctionId × List Import)} (ok (none, imports))
                (ok out) =
              rw (take_import, none_) at h in
            subst Goal (ok-inj h') (tt, all)
        | inr (i, some_) ↦
            of_item i.item
              (laws.find_all (λ i. ItemIssued P i.item) surrogate name imports i all some_)
              (rw (take_import, some_) at h)
      ]
    where
      Goal : Option FunctionId × List Import → Type 0
      Goal o = Old P o.0 × All (λ i. ItemIssued P i.item) o.1

      of_item :
          (item : Item)
          → ItemIssued P item
          → taken_item arenas.import_arena name imports item ≡ ok out
          → Goal out
      of_item (function f) p q =
          subst Goal (ok-inj q)
            (p, laws.delete_all (λ i. ItemIssued P i.item) surrogate name imports all)
      of_item (not_function k) p q = cc

  pub take_imports-HasOld :
      (P : FunctionId → Type 0) (imports : List Import) (out : ExternrefImports × List Import)
      → All (λ i. ItemIssued P i.item) imports
      → take_imports arenas.import_arena imports ≡ ok out
      → HasOld P out.0
  unfolding take_imports
  take_imports-HasOld P imports out all h =
      let arena = arenas.import_arena in
      let (a, e₁, h₁) = >>=-eq-ok (take_import arena imports (text "insert")) _ h in
      let (p₁, all₁) = take_import-Old P imports (text "insert") a all e₁ in
      let (b, e₂, h₂) = >>=-eq-ok (take_import arena a.1 (text "get")) _ h₁ in
      let (p₂, all₂) = take_import-Old P a.1 (text "get") b all₁ e₂ in
      let (c, e₃, h₃) = >>=-eq-ok (take_import arena b.1 (text "drop")) _ h₂ in
      let (p₃, all₃) = take_import-Old P b.1 (text "drop") c all₂ e₃ in
      let (d, e₄, made) = >>=-eq-ok (take_import arena c.1 (text "guard")) _ h₃ in
      subst (λ (o : ExternrefImports × List Import). HasOld P o.0) (ok-inj made) (p₁, p₂, p₃)
