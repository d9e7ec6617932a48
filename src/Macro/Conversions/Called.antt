-- ===== src/Macro/Conversions/Called.antt =====
-- What an exported function is called with by the wrapper that `wrap_export` of crates/macro/src/externref.rs writes.
use externref.Prelude.{
  ℕ, ◌+◌, ◌<◌, ◌≡◌, refl, sym, ap, ap₂, subst, subst₂, ◌∙◌, List, [], ◌∷◌, ◌++◌, map, append_assoc,
  append-nil, Option, none, some, inl, inr, length, Str, All, All-append, ◌⊎◌,
}
use externref.Wasm.{Ref, i32_mod}
use externref.Resource.{Imports, World, M, go_on-some}
use externref.Macro.Conversions.Made.{pair-inj}
use externref.Macro.Syntax.{Ty, Segments, FnArg, receiver, typed, ItemFn, Attribute}
use externref.Macro.Kinds.{ResourceKind, Code, var}
use externref.Macro.Function.{Function}
use externref.Macro.Wrappers.{kind_of, arg_name, export_arg, export_inputs, wrap_export}
use externref.Macro.Conversions.{
  Val, extern, simple, option, other, Result, eval, run_args, run_wrapper,
}
use externref.Macro.Conversions.Passed.{host_value}
use externref.Macro.Conversions.Arrived.{kind_of_value, Fine, Arrived, All-kept, eval-Arrived}
use mathlib.Core.List.{map-append}

-- The values that the host passes, by the names of the parameters from number `i` on.
unfoldable pub host_values : (Str → Val) → ℕ → List FnArg → List Val
host_values env i [] = []
host_values env i (receiver k ∷ inputs) = host_values env (i + 1) inputs
host_values env i (typed pat ty ∷ inputs) = env (arg_name i) ∷ host_values env (i + 1) inputs

-- What the parameters from number `i` on are: resources of a kind, or none.
unfoldable pub kinds : List (ℕ × ResourceKind) → ℕ → List FnArg → List (Option ResourceKind)
kinds resource_args i [] = []
kinds resource_args i (receiver k ∷ inputs) = kinds resource_args (i + 1) inputs
kinds resource_args i (typed pat ty ∷ inputs) =
    kind_of resource_args i ∷ kinds resource_args (i + 1) inputs

-- A value that is no resource.
abbrev pub IsPlain : Val → Type 0
IsPlain (extern r) = Unit {0}
IsPlain (other n) = Unit {0}
IsPlain (simple kind a) = ⊥
IsPlain (option kind o) = ⊥

-- The host passes a reference for a resource, and a plain value for what is no resource.
abbrev pub OfTypes : (Str → Val) → List (ℕ × ResourceKind) → Type 0
OfTypes env resource_args =
    (i : ℕ)
    → ((kind : ResourceKind) × (kind_of resource_args i ≡ some kind)
        × ((r : Ref) × (env (arg_name i) ≡ extern r)))
      ⊎ ((kind_of resource_args i ≡ none) × IsPlain (env (arg_name i)))

Arrived-plain : (w : World) (v : Val) → length w.table < i32_mod → IsPlain v → Arrived v none w w v
Arrived-plain w (extern r) h p = record {
  of_kind = refl;
  stands = refl;
  fine = tt;
  grown = λ j q k. k;
  bound = h;
}
Arrived-plain w (other n) h p = record {
  of_kind = refl;
  stands = refl;
  fine = tt;
  grown = λ j q k. k;
  bound = h;
}
Arrived-plain w (simple kind a) h p = elim p [ ]
Arrived-plain w (option kind o) h p = elim p [ ]

module _ (imports : Imports) (env : Str → Val) where
  abbrev Arrives : Code → Val → Option ResourceKind → Type 0
  Arrives c u k =
      (w w' : World) (out : Result)
      → length w.table < i32_mod
      → eval imports env c w ≡ some (out, w')
      → Arrived u k w w' out.0

  -- Codes, and the values that they are made of.
  data AllArrive : List Code → List Val → List (Option ResourceKind) → Type 0 where
    nil : AllArrive [] [] []
    also :
        {c : Code} {u : Val} {k : Option ResourceKind} {cs : List Code} {us : List Val}
        {ks : List (Option ResourceKind)}
        → Arrives c u k
        → AllArrive cs us ks
        → AllArrive (c ∷ cs) (u ∷ us) (k ∷ ks)

  -- The function was called, with values of the kinds `ks` that stand for `us`, and ended.
  pub record Called (callee : List Val → M Val) (us : List Val) (ks : List (Option ResourceKind))
      : Type 0 where
    pub args : List Val
    pub before_ : World
    pub after_ : World
    pub result : Val
    pub ended : callee args before_ ≡ some (result, after_)
    pub of_kinds : map kind_of_value args ≡ ks
    pub stand : map (host_value before_) args ≡ us

  run_args-Called :
      (callee : List Val → M Val) (cs : List Code) (us vs : List Val) (done : List Val)
      (ks made : List (Option ResourceKind)) (w w' : World) (out : Val)
      → AllArrive cs us ks
      → All (Fine w) vs
      → map kind_of_value vs ≡ made
      → map (host_value w) vs ≡ done
      → length w.table < i32_mod
      → run_args imports env callee cs vs w ≡ some (out, w')
      → Called callee (done ++ us) (made ++ ks)
  unfolding run_args
  run_args-Called callee [] _ vs done _ made w w' out nil fine same_kinds stand h e = record {
    args = vs;
    before_ = w;
    after_ = w';
    result = out;
    ended = e;
    of_kinds = same_kinds ∙ sym (append-nil made);
    stand = stand ∙ sym (append-nil done);
  }
  run_args-Called callee (c ∷ cs) _ vs done _ made w w' out
        (also {u = u} {k = k} {us = us} {ks = ks} arrives all) fine same_kinds stand h e =
      let (r, w₁, evaluated, e₁) = go_on-some (eval imports env c w) _ (out, w') e in
      let (last, w₂, called, _) =
        go_on-some (run_args imports env callee cs (vs ++ (r.0 ∷ [])) w₁) _ (out, w') e₁ in
      let arrived = arrives w w₁ r h evaluated in
      let (same, fine₁) = All-kept w w₁ vs arrived.grown fine in
      subst₂ (Called callee) (append_assoc done (u ∷ []) us) (append_assoc made (k ∷ []) ks) (
        run_args-Called callee cs us (vs ++ (r.0 ∷ [])) (done ++ (u ∷ [])) ks (made ++ (k ∷ [])) w₁
          w₂ last all (All-append (Fine w₁) vs (r.0 ∷ []) fine₁ (arrived.fine, tt))
          (map-append kind_of_value vs (r.0 ∷ [])
            ∙ ap₂ ◌++◌ same_kinds (ap (λ (o : Option ResourceKind). o ∷ []) arrived.of_kind))
          (map-append (host_value w₁) vs (r.0 ∷ [])
            ∙ ap₂ ◌++◌ (same ∙ stand) (ap (λ (v : Val). v ∷ []) arrived.stands))
          arrived.bound called)

  var-Arrives : (name : Str) → IsPlain (env name) → Arrives (var name) (env name) none
  unfolding eval
  var-Arrives name p w w' out h ran =
      let (same, end) = pair-inj (env name, []) out w w' ran in
      subst (λ (x : Result). Arrived (env name) none w w' x.0) same
        (subst (λ (v : World). Arrived (env name) none w v (env name)) end
          (Arrived-plain w (env name) h p))

  module _ (cr : Segments) (resource_args : List (ℕ × ResourceKind))
      (passed : OfTypes env resource_args) where
    arg-Arrives :
        (i : ℕ) (ty : Ty)
        → Arrives
            (export_arg cr resource_args i ty (kind_of resource_args i)).1
            (env (arg_name i))
            (kind_of resource_args i)
    arg-Arrives i ty = elim (passed i) [
      | inl (kind, found, (r, given)) ↦
          subst (λ o. Arrives (export_arg cr resource_args i ty o).1 (env (arg_name i)) o)
            (sym found)
            (λ w w' out h e.
              subst (λ u. Arrived u (some kind) w w' out.0) (sym given)
                (eval-Arrived imports r w w' h kind (arg_name i) cr env out given e))
      | inr (plain, p) ↦
          subst (λ o. Arrives (export_arg cr resource_args i ty o).1 (env (arg_name i)) o)
            (sym plain) (var-Arrives (arg_name i) p)
    ]

    inputs-AllArrive :
        (i : ℕ) (inputs : List FnArg)
        → AllArrive
            (export_inputs cr resource_args i inputs).1
            (host_values env i inputs)
            (kinds resource_args i inputs)
    unfolding export_inputs host_values kinds
    inputs-AllArrive i [] = nil
    inputs-AllArrive i (receiver k ∷ inputs) = inputs-AllArrive (i + 1) inputs
    inputs-AllArrive i (typed pat ty ∷ inputs) =
        also (arg-Arrives i ty) (inputs-AllArrive (i + 1) inputs)

  -- Let the host pass a reference, or null, for each parameter of an exported function that is a resource, of any
  -- kind, and plain values for the others. On a table of fewer than 2^32 elements, if a call through the wrapper
  -- ends, then it has called the function, with values that stand for what the host passed, in order. For a parameter
  -- that is a resource, or an option of one, the value is that too, owned or borrowed as the parameter's kind says;
  -- for another parameter it is no resource. The references that the resources hold at that moment are the host's, none where it passed null,
  -- and the other values are as they were.
  pub wrap_export-host_values :
      (self : Function) (raw : ItemFn) (export_name : Option Attribute) (callee : List Val → M Val)
      (w w' : World) (out : Val)
      → OfTypes env self.resource_args
      → length w.table < i32_mod
      → run_wrapper imports env callee (wrap_export self raw export_name) w ≡ some (out, w')
      → Called callee (host_values env 0 raw.sig.inputs) (kinds self.resource_args 0 raw.sig.inputs)
  unfolding run_wrapper wrap_export
  wrap_export-host_values self raw export_name callee w w' out passed h e =
      let args = (export_inputs self.crate_path self.resource_args 0 raw.sig.inputs).1 in
      let (last, w₁, called, _) =
        go_on-some (run_args imports env callee args [] w) _ (out, w') e in
      run_args-Called callee args (host_values env 0 raw.sig.inputs) [] []
        (kinds self.resource_args 0 raw.sig.inputs) [] w w₁ last
        (inputs-AllArrive self.crate_path self.resource_args passed 0 raw.sig.inputs) tt refl refl h
        called
