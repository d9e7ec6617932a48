-- ===== src/Macro/Conversions/Arrived.antt =====
-- What the conversions of crates/macro/src/externref.rs make of the references that a host passes to an export.
use externref.Prelude.{
  ℕ, ◌<◌, ◌≡◌, refl, sym, ap, ap₂, subst, ◌∙◌, List, [], ◌∷◌, map, Option, none, some, ◌==◌, ==→eq,
  inl, inr, Bool-cases, length, Str, All,
}
use externref.Wasm.{HostRef, Ref, i32_mod}
use externref.Patched.Effects.{Inserted}
use externref.Resource.{Imports, World, Resource, new, new_non_null}
use externref.Resource.Laws.{new-null, new-Holds, new_non_null-new}
use externref.Macro.Syntax.{Segments}
use externref.Macro.Kinds.{SimpleResourceKind, by_ref, ResourceKind, initialize_for_export}
use externref.Macro.Conversions.Made.{pair-inj, Made, eval-Made}
use externref.Macro.Conversions.{Val, extern, simple, option, other, Result, eval}
use externref.Resource.Lifetime.{of_element, live, live-Inserted, free-Inserted}
use externref.Macro.Conversions.Passed.{host_value}

-- The elements that are references stay as they are.
abbrev pub Grown : World → World → Type 0
Grown w w' = (j : ℕ) (q : HostRef) → live w.table j ≡ some q → live w'.table j ≡ some q

-- A value whose resource, if there is one, holds a reference.
abbrev pub Fine : World → Val → Type 0
Fine w (simple kind a) = (q : HostRef) × (live w.table a.id ≡ some q)
Fine w (option kind (some a)) = (q : HostRef) × (live w.table a.id ≡ some q)
Fine w _ = Unit {0}

-- The kind of the resource that a value is, if it is one.
abbrev pub kind_of_value : Val → Option ResourceKind
kind_of_value (extern r) = none
kind_of_value (simple kind a) = some (ResourceKind.simple kind)
kind_of_value (option kind o) = some (ResourceKind.option kind)
kind_of_value (other n) = none

-- A value that was made of the host's value `u`, for a parameter of the kind `k`, if it has one.
pub record Arrived (u : Val) (k : Option ResourceKind) (w w' : World) (v : Val) : Type 0 where
  pub of_kind : kind_of_value v ≡ k
  pub stands : host_value w' v ≡ u
  pub fine : Fine w' v
  pub grown : Grown w w'
  pub bound : length w'.table < i32_mod

Fine-kept :
    (w w' : World) (v : Val)
    → Grown w w'
    → Fine w v
    → (host_value w' v ≡ host_value w v) × Fine w' v
Fine-kept w w' (simple kind a) g (q, h) = (ap extern (g a.id q h ∙ sym h), (q, g a.id q h))
Fine-kept w w' (option kind (some a)) g (q, h) = (ap extern (g a.id q h ∙ sym h), (q, g a.id q h))
Fine-kept w w' (option kind none) g f = (refl, tt)
Fine-kept w w' (extern r) g f = (refl, tt)
Fine-kept w w' (other n) g f = (refl, tt)

pub All-kept :
    (w w' : World) (vs : List Val)
    → Grown w w'
    → All (Fine w) vs
    → (map (host_value w') vs ≡ map (host_value w) vs) × All (Fine w') vs
All-kept w w' [] g f = (refl, tt)
All-kept w w' (v ∷ vs) g (f, fs) =
    let (same, fine) = Fine-kept w w' v g f in
    let (sames, fines) = All-kept w w' vs g fs in (ap₂ ◌∷◌ same sames, (fine, fines))

Grown-Inserted : (q : HostRef) (w w' : World) (i : ℕ) → Inserted q w.table i w'.table → Grown w w'
Grown-Inserted q w w' i done j p h = elim (Bool-cases (j == i)) [
  | inl same ↦
      let e : none ≡ some p =
        sym (ap (live w.table) (==→eq j i same) ∙ free-Inserted q w.table w'.table i done) ∙ h in
      cc
  | inr differs ↦ (rw differs at (live-Inserted q w.table w'.table i j done)) ∙ h
]

module _ (imports : Imports) (r : Ref) (w w' : World) (h : length w.table < i32_mod) where
  option-Arrived :
      (kind : SimpleResourceKind) (q : Ref) (o : Option Resource)
      → q ≡ r
      → new imports q w ≡ some (o, w')
      → Arrived (extern r) (some (ResourceKind.option kind)) w w' (option kind o)
  option-Arrived kind none o e made =
      let (none_, _, _) = new-null imports w h in
      let (same, end) = pair-inj none o w w' (sym none_ ∙ made) in
      subst
        (λ (x : Option Resource).
          Arrived (extern r) (some (ResourceKind.option kind)) w w' (option kind x))
        same
        (subst
          (λ (v : World).
            Arrived (extern r) (some (ResourceKind.option kind)) w v (option kind none))
          end
          (record {
            of_kind = refl;
            stands = ap extern e;
            fine = tt;
            grown = λ j q k. k;
            bound = h;
          }))
  option-Arrived kind (some q) o e made =
      let (a, same, holds, done, _) = new-Holds imports w w' q o h made in
      let at_ : live w'.table a.id ≡ some q = ap of_element holds.slot in
      subst
        (λ (x : Option Resource).
          Arrived (extern r) (some (ResourceKind.option kind)) w w' (option kind x))
        (sym same)
        (record {
          of_kind = refl;
          stands = ap extern (at_ ∙ e);
          fine = (q, at_);
          grown = Grown-Inserted q w w' a.id done;
          bound = done.bound;
        })

  simple-Arrived :
      (kind : SimpleResourceKind) (a : Resource)
      → new_non_null imports r w ≡ some (a, w')
      → Arrived (extern r) (some (ResourceKind.simple kind)) w w' (simple kind a)
  simple-Arrived kind a made =
      let (q, e, made') = new_non_null-new imports w w' r a h made in
      let arrived = option-Arrived by_ref (some q) (some a) (sym e) made' in
      record {
        of_kind = refl;
        stands = arrived.stands;
        fine = arrived.fine;
        grown = arrived.grown;
        bound = arrived.bound;
      }

  pub eval-Arrived :
      (kind : ResourceKind) (arg : Str) (cr : Segments) (env : Str → Val) (out : Result)
      → env arg ≡ extern r
      → eval imports env (initialize_for_export kind arg cr) w ≡ some (out, w')
      → Arrived (extern r) (some kind) w w' out.0
  eval-Arrived kind arg cr env out k e =
      by_kind kind (eval-Made imports r w w' kind arg cr env out k e)
    where
      by_kind :
          (kind : ResourceKind)
          → Made imports r w w' kind out
          → Arrived (extern r) (some kind) w w' out.0
      by_kind (ResourceKind.simple kind) (a, made, same) =
          subst (λ (x : Result). Arrived (extern r) (some (ResourceKind.simple kind)) w w' x.0)
            (sym same) (simple-Arrived kind a made)
      by_kind (ResourceKind.option kind) (o, made, same) =
          subst (λ (x : Result). Arrived (extern r) (some (ResourceKind.option kind)) w w' x.0)
            (sym same) (option-Arrived kind r o refl made)
