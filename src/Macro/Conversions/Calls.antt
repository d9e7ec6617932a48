-- ===== src/Macro/Conversions/Calls.antt =====
-- A call of an exported function through the wrapper that `wrap_export` of crates/macro/src/externref.rs writes, with
-- parameters that borrow.
use externref.Prelude.{
  ℕ, ◌+◌, ◌<◌, ◌≡◌, ◌≢◌, refl, sym, subst, true, List, [], ◌∷◌, ◌++◌, Option, some, length, Str,
  inl, inr, Option-cases, All,
}
use externref.Wasm.{Ref, i32_mod}
use externref.Resource.{Imports, World, Resource, M, go_on-some, ◌>>◌, return}
use externref.Macro.Conversions.Made.{pair-inj}
use externref.Macro.Syntax.{Ty, Segments, FnArg, receiver, typed, ItemFn, Attribute}
use externref.Macro.Kinds.{ResourceKind, Code, var}
use externref.Macro.Function.{ReturnType, default, not_resource, resource, Function}
use externref.Macro.Wrappers.{
  kind_of, arg_name, export_arg, export_inputs, export_tail, wrap_export,
}
use externref.Macro.Conversions.{
  Val, extern, Result, eval, drop_all, run_args, run_tail, run_wrapper,
}
use externref.Macro.Conversions.Released.{
  SameRefs, Borrowed, nothing, one, drop_all-Borrowed, is_borrowed, eval-Borrowed,
}

-- The function that is called keeps the references in the table.
abbrev pub Keeps : (List Val → M Val) → Type 0
Keeps callee =
    (vs : List Val) (w w' : World) (out : Val)
    → length w.table < i32_mod
    → callee vs w ≡ some (out, w')
    → SameRefs w w'

bound-Borrowed :
    (w w₁ : World) (temps : List Resource)
    → length w.table < i32_mod
    → Borrowed w w₁ temps
    → length w₁.table < i32_mod
bound-Borrowed w w₁ [] h (nothing e) = subst (λ (v : World). length v.table < i32_mod) e h
bound-Borrowed w w₁ (x ∷ []) h (one r holds done) = done.bound
bound-Borrowed w w₁ (x ∷ (y ∷ ys)) h b = elim b [ ]

-- What the arguments of the wrapper are: each that is declared as a resource borrows, and the host passes a reference
-- for it.
abbrev pub Passed : (Str → Val) → List (ℕ × ResourceKind) → Type 0
Passed env resource_args =
    (i : ℕ) (kind : ResourceKind)
    → kind_of resource_args i ≡ some kind
    → (is_borrowed kind ≡ true) × ((r : Ref) × (env (arg_name i) ≡ extern r))

module _ (imports : Imports) (env : Str → Val) where
  -- Codes whose values borrow, or that only name a variable.
  abbrev Borrows : Code → Type 0
  Borrows c =
      (w w₁ : World) (out : Result)
      → length w.table < i32_mod
      → eval imports env c w ≡ some (out, w₁)
      → Borrowed w w₁ out.1

  after_drop :
      (temps : List Resource) (out last : Val) (w w₁ w₂ w' : World)
      → length w.table < i32_mod
      → Borrowed w w₁ temps
      → SameRefs w₁ w₂
      → (drop_all imports temps >> return out) w₂ ≡ some (last, w')
      → SameRefs w w'
  after_drop temps out last w w₁ w₂ w' h b same e =
      let (w₃, dropped, same') = drop_all-Borrowed imports w w₁ w₂ temps h b same in
      let (_, end) = pair-inj out last w₃ w' (rw dropped at e) in subst (SameRefs w) end same'

  run_args-SameRefs :
      (callee : List Val → M Val) (cs : List Code) (vs : List Val) (w w' : World) (out : Val)
      → Keeps callee
      → All Borrows cs
      → length w.table < i32_mod
      → run_args imports env callee cs vs w ≡ some (out, w')
      → SameRefs w w'
  unfolding run_args
  run_args-SameRefs callee [] vs w w' out keeps all h e = keeps vs w w' out h e
  run_args-SameRefs callee (c ∷ cs) vs w w' out keeps (b, all) h e =
      let (r, w₁, evaluated, e₁) = go_on-some (eval imports env c w) _ (out, w') e in
      let (last, w₂, called, e₂) =
        go_on-some (run_args imports env callee cs (vs ++ (r.0 ∷ [])) w₁) _ (out, w') e₁ in
      let temps = b w w₁ r h evaluated in
      let same =
        run_args-SameRefs callee cs (vs ++ (r.0 ∷ [])) w₁ w₂ last keeps all
          (bound-Borrowed w w₁ r.1 h temps) called in
      after_drop r.1 last out w w₁ w₂ w' h temps same e₂

  var-Borrows : (name : Str) → Borrows (var name)
  unfolding eval
  var-Borrows name w w₁ out h e =
      let (same, end) = pair-inj (env name, []) out w w₁ e in
      subst (λ (x : Result). Borrowed w w₁ x.1) same (nothing end)

  arg-Borrows :
      (cr : Segments) (resource_args : List (ℕ × ResourceKind)) (i : ℕ) (ty : Ty)
      → Passed env resource_args
      → Borrows (export_arg cr resource_args i ty (kind_of resource_args i)).1
  arg-Borrows cr resource_args i ty p = elim (Option-cases (kind_of resource_args i)) [
    | inl plain ↦
        subst (λ o. Borrows (export_arg cr resource_args i ty o).1) (sym plain)
          (var-Borrows (arg_name i))
    | inr (kind, found) ↦
        let (borrowed, (r, given)) = p i kind found in
        subst (λ o. Borrows (export_arg cr resource_args i ty o).1) (sym found)
          (λ w w₁ out h e.
            eval-Borrowed imports r w w₁ kind (arg_name i) cr env out h borrowed given e)
  ]

  export_inputs-Borrows :
      (cr : Segments) (resource_args : List (ℕ × ResourceKind)) (i : ℕ) (inputs : List FnArg)
      → Passed env resource_args
      → All Borrows (export_inputs cr resource_args i inputs).1
  unfolding export_inputs
  export_inputs-Borrows cr resource_args i [] p = tt
  export_inputs-Borrows cr resource_args i (receiver k ∷ inputs) p =
      export_inputs-Borrows cr resource_args (i + 1) inputs p
  export_inputs-Borrows cr resource_args i (typed pat ty ∷ inputs) p =
      (arg-Borrows cr resource_args i ty p, export_inputs-Borrows cr resource_args (i + 1) inputs p)

  export_tail-ok :
      (cr : Segments) (ret : ReturnType) (last out : Val) (w w' : World)
      → ((kind : ResourceKind) → ret ≢ resource kind)
      → run_tail imports (export_tail cr ret) last w ≡ some (out, w')
      → w ≡ w'
  unfolding run_tail
  export_tail-ok cr default last out w w' h e = (pair-inj last out w w' e).1
  export_tail-ok cr not_resource last out w w' h e = (pair-inj last out w w' e).1
  export_tail-ok cr (resource kind) last out w w' h e = absurd (h kind refl)

  -- Let the resources among the parameters of an exported function be borrowed ones, optional or not, and mutable
  -- or not; let it not return a resource; and let the host pass a reference, or null, for each of them. If the
  -- function itself keeps the references that the table holds, then so does a call through the wrapper that ends:
  -- on a table of fewer than 2^32 elements it leaves the same references at the same indices, so the resources
  -- that were made for the arguments are gone.
  pub wrap_export-SameRefs :
      (self : Function) (raw : ItemFn) (export_name : Option Attribute) (callee : List Val → M Val)
      (w w' : World) (out : Val)
      → Passed env self.resource_args
      → ((kind : ResourceKind) → self.return_type ≢ resource kind)
      → Keeps callee
      → length w.table < i32_mod
      → run_wrapper imports env callee (wrap_export self raw export_name) w ≡ some (out, w')
      → SameRefs w w'
  unfolding run_wrapper wrap_export
  wrap_export-SameRefs self raw export_name callee w w' out passed ret keeps h e =
      let args = (export_inputs self.crate_path self.resource_args 0 raw.sig.inputs).1 in
      let (last, w₁, called, e₁) =
        go_on-some (run_args imports env callee args [] w) _ (out, w') e in
      subst (SameRefs w) (export_tail-ok self.crate_path self.return_type last out w₁ w' ret e₁) (
        run_args-SameRefs callee args [] w w₁ last keeps
          (export_inputs-Borrows self.crate_path self.resource_args 0 raw.sig.inputs passed) h
          called)
