-- ===== src/Macro/Conversions/Passed.antt =====
-- A call of an imported function through the wrapper that `wrap_import` of crates/macro/src/externref.rs writes, with
-- parameters that borrow.
use externref.Prelude.{
  ℕ, ◌+◌, ◌<◌, ◌≡◌, refl, sym, ap, ◌∙◌, List, [], ◌∷◌, ◌++◌, append-nil, append_assoc, Option, none,
  some, length, Str, inl, inr, Option-cases,
}
use externref.Wasm.{HostRef, Ref, i32_mod}
use externref.Resource.{Imports, World, Resource, M, go_on, return, raw}
use externref.Resource.Laws.{Holds, raw-Holds, new-null}
use externref.Macro.Syntax.{Segments, FnArg, receiver, typed, Visibility, Signature}
use externref.Macro.Kinds.{by_ref, by_mut_ref, ResourceKind, simple_kind, prepare_for_import}
use externref.Macro.Function.{Function}
use externref.Macro.Wrappers.{
  kind_of, arg_name, import_arg, import_inputs, import_tail, wrap_import,
}
use externref.Macro.Conversions.{
  Val, extern, simple, option, eval, wrap_some, call_raw, run_args, run_tail, run_wrapper, drop_all,
}
use externref.Resource.Lifetime.{of_element, live}

-- The reference that a resource stands for in a table, and the value that the host is to get.
abbrev pub host_value : World → Val → Val
host_value w (simple kind resource) = extern (live w.table resource.id)
host_value w (option kind none) = extern none
host_value w (option kind (some resource)) = extern (live w.table resource.id)
host_value w v = v

-- A reference to a resource that holds a reference of the host, or none, of the kind of the parameter.
pub data Argument (w : World) : ResourceKind → Val → Type 0 where
  shared :
      (resource : Resource) (r : HostRef)
      → Holds w resource r
      → Argument w (ResourceKind.simple by_ref) (simple by_ref resource)
  unique :
      (resource : Resource) (r : HostRef)
      → Holds w resource r
      → Argument w (ResourceKind.simple by_mut_ref) (simple by_mut_ref resource)
  some_shared :
      (resource : Resource) (r : HostRef)
      → Holds w resource r
      → Argument w (ResourceKind.option by_ref) (option by_ref (some resource))
  no_shared : Argument w (ResourceKind.option by_ref) (option by_ref none)

abbrev host_arg : World → Option ResourceKind → Val → Val
host_arg w none v = v
host_arg w (some kind) v = host_value w v

-- The values that the imported function is called with.
unfoldable pub host_args : World → (Str → Val) → List (ℕ × ResourceKind) → ℕ → List FnArg → List Val
host_args w env resource_args i [] = []
host_args w env resource_args i (receiver k ∷ inputs) = host_args w env resource_args (i + 1) inputs
host_args w env resource_args i (typed pat ty ∷ inputs) =
    host_arg w (kind_of resource_args i) (env (arg_name i))
    ∷ host_args w env resource_args (i + 1) inputs

-- Each argument that is declared as a resource is a reference to one, or none, of its kind.
abbrev pub Lent : World → (Str → Val) → List (ℕ × ResourceKind) → Type 0
Lent w env resource_args =
    (i : ℕ) (kind : ResourceKind)
    → kind_of resource_args i ≡ some kind
    → Argument w kind (env (arg_name i))

go_on-return : {A : Type 0} (x : Option (A × World)) → go_on x (λ a. return a) ≡ x
go_on-return none = refl
go_on-return (some (a, w)) = refl

module _ (imports : Imports) (w : World) (h : length w.table < i32_mod) where
  raw-live :
      (resource : Resource) (r : HostRef)
      → Holds w resource r
      → raw imports (some resource) w ≡ some (live w.table resource.id, w)
  raw-live resource r holds =
      raw-Holds imports w resource r holds
      ∙ ap (λ (x : Option Ref). some (of_element x, w)) (sym holds.slot)

  module _ (env : Str → Val) where
    eval-prepare_for_import :
        (kind : ResourceKind) (arg : Str) (cr : Segments) (v : Val)
        → env arg ≡ v
        → Argument w kind v
        → eval imports env (prepare_for_import kind arg cr) w ≡ some ((host_value w v, []), w)
    unfolding eval prepare_for_import wrap_some call_raw simple_kind
    eval-prepare_for_import _ arg cr _ e (shared resource r holds) =
        rw (e, raw-live resource r holds)
    eval-prepare_for_import _ arg cr _ e (unique resource r holds) =
        rw (e, raw-live resource r holds)
    eval-prepare_for_import _ arg cr _ e (some_shared resource r holds) =
        rw (e, raw-live resource r holds)
    eval-prepare_for_import _ arg cr _ e no_shared =
        let (_, _, none_) = new-null imports w h in rw (e, none_)

    eval-import_arg :
        (cr : Segments) (resource_args : List (ℕ × ResourceKind)) (i : ℕ)
        → Lent w env resource_args
        → eval imports env (import_arg cr resource_args i (kind_of resource_args i)) w
          ≡ some ((host_arg w (kind_of resource_args i) (env (arg_name i)), []), w)
    unfolding eval
    eval-import_arg cr resource_args i lent = elim (Option-cases (kind_of resource_args i)) [
      | inl plain ↦ rw plain refl
      | inr (kind, found) ↦
          rw found (
            eval-prepare_for_import kind (arg_name i) cr (env (arg_name i)) refl
              (lent i kind found))
    ]

    run_args-host_args :
        (callee : List Val → M Val) (cr : Segments) (resource_args : List (ℕ × ResourceKind))
        (i : ℕ) (inputs : List FnArg) (vs : List Val)
        → Lent w env resource_args
        → run_args imports env callee (import_inputs cr resource_args i inputs).1 vs w
          ≡ callee (vs ++ host_args w env resource_args i inputs) w
    unfolding run_args import_inputs host_args drop_all
    run_args-host_args callee cr resource_args i [] vs lent =
        ap (λ (us : List Val). callee us w) (sym (append-nil vs))
    run_args-host_args callee cr resource_args i (receiver k ∷ inputs) vs lent =
        run_args-host_args callee cr resource_args (i + 1) inputs vs lent
    run_args-host_args callee cr resource_args i (typed pat ty ∷ inputs) vs lent =
        let v = host_arg w (kind_of resource_args i) (env (arg_name i)) in
        rw (eval-import_arg cr resource_args i lent) (
          go_on-return (run_args imports env callee _ (vs ++ (v ∷ [])) w)
          ∙ run_args-host_args callee cr resource_args (i + 1) inputs (vs ++ (v ∷ [])) lent
          ∙ ap (λ (us : List Val). callee us w) (append_assoc vs (v ∷ []) _))

    -- Let each argument of an imported function that is declared as a resource be a reference to one, mutable or
    -- not, or an optional reference that is not mutable, where the resources hold references of the host. On a
    -- table of fewer than 2^32 elements the wrapper ends its conversions, calls the import in the world as it is,
    -- with the references of the host in the places of the resources, null for none, and with the other arguments
    -- as they are; what follows is the conversion of its result.
    pub wrap_import-host_args :
        (self : Function) (vis : Visibility) (sig : Signature) (callee : List Val → M Val)
        → Lent w env self.resource_args
        → run_wrapper imports env callee (wrap_import self vis sig).0 w
          ≡ go_on
              (callee (host_args w env self.resource_args 0 sig.inputs) w)
              (run_tail imports (import_tail self.crate_path self.return_type))
    unfolding run_wrapper wrap_import
    wrap_import-host_args self vis sig callee lent =
        ap
          (λ (o : Option (Val × World)).
            go_on o (run_tail imports (import_tail self.crate_path self.return_type)))
          (run_args-host_args callee self.crate_path self.resource_args 0 sig.inputs [] lent)
