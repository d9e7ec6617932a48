-- ===== src/Processor/Process/Kept.antt =====
-- The passes of `process_functions` give the functions of a module no new names.
use externref.Prelude.{
  ℕ, ◌≡◌, refl, sym, ap, ap₂, ◌∙◌, Bool, true, false, ◌||◌, List, [], ◌∷◌, Option, none, some, ◌==◌,
  if◌then◌else◌, length, Option-cases, Bool-cases, inl, inr, Outcome, ok, err, fault, ◌>>=◌,
  or_fault, checked, >>=-eq-ok, ok-inj, or_both,
}
use externref.Signature.Types.{Function, FunctionKind, export, import}
use externref.Signature.Bits.{set_indices}
use externref.Processor.Ir.{FunctionId}
use externref.Processor.Error.{Error, unexpected_call}
use externref.Processor.Calls.{Import, ImportArena, PatchedFunctions}
use externref.Processor.Types.{FuncType, patch_type_inner}
use externref.Processor.Locals.{Visit, contains, detect_body, initial, count, reversed}
use externref.Processor.Locals.Transform.{
  LocalFunction, transform_local_fn, function_offset, replace_local_gets,
}
use externref.Processor.Cloner.{clone_function}
use externref.Processor.Resolve.{Export}
use externref.Processor.Module.{
  imported_fn, local_fn, Funcs, func, set_func, type_of, returns_last, transform_import,
  transform_if_import, process_imports, declared_for, Walrus, transform_export, transform_fn,
  transform_fns, function_ids, process_functions, add_id, ids_of,
}
use externref.Processor.Process.Names.{
  body_names, body_names-detect_body, body_names-replace_local_gets, body_names-clone_function,
}

module _ (calls refs : FunctionId → Bool) where
  unfoldable pub funcs_names : Funcs → Bool
  funcs_names [] = false
  funcs_names ((f, imported_fn t) ∷ funcs) = funcs_names funcs
  funcs_names ((f, local_fn self) ∷ funcs) = body_names calls refs self.body || funcs_names funcs

  body_names-transform_local_fn :
      (in_order : LocalFunction → List Visit) (fns : List FunctionId) (can : Bool) (next_local : ℕ)
      (self : LocalFunction) (out : ℕ × LocalFunction)
      → transform_local_fn in_order fns can next_local self ≡ ok out
      → body_names calls refs out.1.body ≡ body_names calls refs self.body
  unfolding transform_local_fn
  body_names-transform_local_fn in_order fns can next_local self out h =
      let found = detect_body fns (record { next_local = next_local; new_locals = [] }) self.body in
      let d = found.0 in
      let detected : LocalFunction = record self { body = found.1 } in
      let counted = count d.new_locals (initial d.new_locals []) (λ l s. []) (in_order detected) in
      let replaced : LocalFunction = record self {
        body = replace_local_gets (reversed counted) found.1;
      } in
      let same =
        body_names-detect_body calls refs fns (record { next_local = next_local; new_locals = [] })
          self.body in
      elim (Bool-cases (length d.new_locals == 0)) [
        | inl yes_ ↦
            let h' : ◌≡◌ {A = Outcome Error (ℕ × LocalFunction)} (ok (d.next_local, detected))
                (ok out) =
              rw (transform_local_fn, yes_) at h in
            ap body_of (sym (ok-inj h')) ∙ same
        | inr no_ ↦
            let h' : ◌≡◌ {A = Outcome Error (ℕ × LocalFunction)}
                (if can
                  then ok (d.next_local, replaced)
                  else err (unexpected_call self.name (function_offset self.entry found.1)))
                (ok out) =
              rw (transform_local_fn, no_) at h in
            of_can can d.next_local replaced _ h'
              (body_names-replace_local_gets calls refs (reversed counted) found.1 ∙ same)
      ]
    where
      body_of : ℕ × LocalFunction → Bool
      body_of o = body_names calls refs o.1.body

      of_can :
          (b : Bool) (n : ℕ) (r : LocalFunction) (e : Error)
          → ◌≡◌ {A = Outcome Error (ℕ × LocalFunction)} (if b then ok (n, r) else err e) (ok out)
          → body_names calls refs r.body ≡ body_names calls refs self.body
          → body_names calls refs out.1.body ≡ body_names calls refs self.body
      of_can true n r e q same = ap body_of (sym (ok-inj q)) ∙ same
      of_can false n r e q same = cc

  body_names-transform_export :
      (walrus : Walrus) (returning : List FunctionId) (next_local : ℕ) (declared : Function)
      (self : LocalFunction) (out : ℕ × LocalFunction)
      → body_names calls refs self.body ≡ false
      → transform_export walrus returning next_local declared self ≡ ok out
      → body_names calls refs out.1.body ≡ false
  unfolding transform_export
  body_names-transform_export walrus returning next_local declared self out clean h =
      let (t, _, h₁) = >>=-eq-ok (patch_type_inner declared self.type_) _ h in
      let (is, _, h₂) = >>=-eq-ok (checked (set_indices declared.externrefs)) _ h₁ in
      let (cloned, one, made) = >>=-eq-ok (clone_function _ _ _ _) _ h₂ in
      ap (λ (o : ℕ × LocalFunction). body_names calls refs o.1.body) (sym (ok-inj made))
      ∙ body_names-clone_function calls refs _ _ _ _ cloned
          (body_names-detect_body calls refs returning _ self.body ∙ clean) one

  module _ (walrus : Walrus) where
    body_names-transform_fn :
        (declarations : List (Option FunctionId × Function)) (returning guarded : List FunctionId)
        (next_local : ℕ) (f : FunctionId) (self : LocalFunction) (out : ℕ × LocalFunction)
        → body_names calls refs self.body ≡ false
        → transform_fn walrus declarations returning guarded next_local f self ≡ ok out
        → body_names calls refs out.1.body ≡ false
    unfolding transform_fn
    body_names-transform_fn declarations returning guarded next_local f self out clean h =
        elim (Option-cases (declared_for declarations f)) [
          | inl none_ ↦
              body_names-transform_local_fn walrus.in_order returning (contains guarded f)
                next_local self out (rw (transform_fn, none_) at h)
              ∙ clean
          | inr (declared, some_) ↦
              body_names-transform_export walrus returning next_local declared self out clean
                (rw (transform_fn, some_) at h)
        ]

    funcs_names-transform_fns :
        (declarations : List (Option FunctionId × Function)) (returning guarded : List FunctionId)
        (next_local : ℕ) (funcs : Funcs) (out : ℕ × Funcs)
        → funcs_names funcs ≡ false
        → transform_fns walrus declarations returning guarded next_local funcs ≡ ok out
        → funcs_names out.1 ≡ false
    unfolding funcs_names transform_fns
    funcs_names-transform_fns declarations returning guarded next_local [] out clean h =
        ap (λ (o : ℕ × Funcs). funcs_names o.1) (sym (ok-inj h))
    funcs_names-transform_fns declarations returning guarded next_local ((f, imported_fn t) ∷ funcs)
          out clean h =
        let (rest, more, made) =
          >>=-eq-ok (transform_fns walrus declarations returning guarded next_local funcs) _ h in
        ap (λ (o : ℕ × Funcs). funcs_names o.1) (sym (ok-inj made))
        ∙ funcs_names-transform_fns declarations returning guarded next_local funcs rest clean more
    funcs_names-transform_fns declarations returning guarded next_local ((f, local_fn self) ∷ funcs)
          out clean h =
        let (here, there) = or_both (body_names calls refs self.body) (funcs_names funcs) clean in
        let (one, done, h₁) =
          >>=-eq-ok (transform_fn walrus declarations returning guarded next_local f self) _ h in
        let (rest, more, made) =
          >>=-eq-ok (transform_fns walrus declarations returning guarded one.0 funcs) _ h₁ in
        ap (λ (o : ℕ × Funcs). funcs_names o.1) (sym (ok-inj made))
        ∙ ap₂ (λ (a b : Bool). a || b)
            (body_names-transform_fn declarations returning guarded next_local f self one here done)
            (funcs_names-transform_fns declarations returning guarded one.0 funcs rest there more)

  funcs_names-set_func :
      (funcs : Funcs) (f : FunctionId) (t : FuncType)
      → funcs_names funcs ≡ false
      → funcs_names (set_func funcs f (imported_fn t)) ≡ false
  unfolding funcs_names set_func
  funcs_names-set_func [] f t clean = refl
  funcs_names-set_func ((g, imported_fn t') ∷ funcs) f t clean = elim (Bool-cases (g == f)) [
    | inl yes_ ↦ rw yes_ clean
    | inr no_ ↦ rw no_ (funcs_names-set_func funcs f t clean)
  ]
  funcs_names-set_func ((g, local_fn self) ∷ funcs) f t clean =
      let (here, there) = or_both (body_names calls refs self.body) (funcs_names funcs) clean in
      elim (Bool-cases (g == f)) [
        | inl yes_ ↦ rw yes_ there
        | inr no_ ↦ rw (no_, here) (funcs_names-set_func funcs f t there)
      ]

  funcs_names-transform_import :
      (funcs : Funcs) (declared : Function) (f : FunctionId) (out : Funcs)
      → funcs_names funcs ≡ false
      → transform_import funcs declared f ≡ ok out
      → funcs_names out ≡ false
  unfolding transform_import
  funcs_names-transform_import funcs declared f out clean h = elim (Option-cases (func funcs f)) [
    | inl none_ ↦ let h' : fault ≡ ok out = rw (transform_import, none_) at h in cc
    | inr (local_fn self, some_) ↦ let h' : fault ≡ ok out = rw (transform_import, some_) at h in cc
    | inr (imported_fn t, some_) ↦
        let h' : (patch_type_inner declared t >>= λ t'. ok (set_func funcs f (imported_fn t')))
            ≡ ok out =
          rw (transform_import, some_) at h in
        let (t', _, made) = >>=-eq-ok (patch_type_inner declared t) _ h' in
        ap funcs_names (sym (ok-inj made)) ∙ funcs_names-set_func funcs f t' clean
  ]

  funcs_names-transform_if_import :
      (funcs : Funcs) (declared : Function) (f : FunctionId) (out : Funcs)
      → funcs_names funcs ≡ false
      → transform_if_import funcs declared f ≡ ok out
      → funcs_names out ≡ false
  unfolding transform_if_import
  funcs_names-transform_if_import funcs declared f out clean h = of_kind declared.kind h
    where
      of_kind :
          (k : FunctionKind)
          → elim k [ export ↦ ok funcs | import module_name ↦ transform_import funcs declared f ]
            ≡ ok out
          → funcs_names out ≡ false
      of_kind export q = ap funcs_names (sym (ok-inj q)) ∙ clean
      of_kind (import m) q = funcs_names-transform_import funcs declared f out clean q

  funcs_names-process_imports :
      (declarations : List (Option FunctionId × Function)) (returning : List FunctionId)
      (funcs : Funcs) (out : List FunctionId × Funcs)
      → funcs_names funcs ≡ false
      → process_imports declarations returning funcs ≡ ok out
      → funcs_names out.1 ≡ false
  unfolding process_imports
  funcs_names-process_imports [] returning funcs out clean h =
      ap (λ (o : List FunctionId × Funcs). funcs_names o.1) (sym (ok-inj h)) ∙ clean
  funcs_names-process_imports ((none, declared) ∷ rest) returning funcs out clean h =
      funcs_names-process_imports rest returning funcs out clean h
  funcs_names-process_imports ((some f, declared) ∷ rest) returning funcs out clean h =
      let (k, _, h₁) = >>=-eq-ok (or_fault (func funcs f)) _ h in
      let (last, _, h₂) = >>=-eq-ok (returns_last declared (type_of k)) _ h₁ in
      let (funcs', changed, h₃) = >>=-eq-ok (transform_if_import funcs declared f) _ h₂ in
      funcs_names-process_imports rest (add_id last f returning) funcs' out
        (funcs_names-transform_if_import funcs declared f funcs' clean changed) h₃

  pub funcs_names-process_functions :
      (walrus : Walrus) (arena : ImportArena) (exports : List Export) (imports : List Import)
      (fns : PatchedFunctions) (functions : List Function) (guarded : List FunctionId)
      (next_local : ℕ) (funcs : Funcs) (out : ℕ × Funcs)
      → funcs_names funcs ≡ false
      → process_functions walrus arena exports imports fns functions guarded next_local funcs
        ≡ ok out
      → funcs_names out.1 ≡ false
  unfolding process_functions
  funcs_names-process_functions walrus arena exports imports fns functions guarded next_local funcs
        out clean h =
      let (declarations, _, h₁) =
        >>=-eq-ok (function_ids walrus arena exports imports functions) _ h in
      let (mid, imports_, last) =
        >>=-eq-ok (process_imports declarations (ids_of fns.get_ref_id) funcs) _ h₁ in
      funcs_names-transform_fns walrus declarations mid.0 guarded next_local mid.1 out
        (funcs_names-process_imports declarations (ids_of fns.get_ref_id) funcs mid clean imports_)
        last
