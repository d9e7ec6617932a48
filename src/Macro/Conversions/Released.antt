-- ===== src/Macro/Conversions/Released.antt =====
-- What becomes of the resources that a wrapped export makes for its reference arguments.
use externref.Prelude.{
  ℕ, ◌<◌, ◌≡◌, refl, sym, ap, subst, ◌∙◌, Bool, true, false, List, [], ◌∷◌, Option, none, some,
  length, get_elem?, Str,
}
use externref.Wasm.{HostRef, Ref, i32_mod}
use externref.Patched.Effects.{Inserted}
use externref.Resource.{Imports, World, Resource, new, new_non_null}
use externref.Resource.Laws.{Holds, new-null, drop-Holds, new-Holds, new_non_null-new}
use externref.Resource.Lifetime.{of_element, live, live-restored}
use externref.Macro.Syntax.{Segments}
use externref.Macro.Kinds.{
  owned, by_ref, by_mut_ref, ResourceKind, simple_kind, initialize_for_export,
}
use externref.Macro.Conversions.Made.{held, Made, eval-Made}
use externref.Macro.Conversions.{Val, extern, Result, eval, drop_all}

-- The same references at the same indices, in a table within the limits. There may be more null elements.
pub record SameRefs (w w' : World) : Type 0 where
  pub refs : (j : ℕ) → live w'.table j ≡ live w.table j
  pub bound : length w'.table < i32_mod

-- What a conversion of an argument leaves, when the argument becomes a reference to a resource: nothing, or one
-- resource in an element that held no reference.
pub data Borrowed (w w' : World) : List Resource → Type 0 where
  nothing : w ≡ w' → Borrowed w w' []
  one :
      {resource : Resource} (r : HostRef)
      → Holds w' resource r
      → Inserted r w.table resource.id w'.table
      → Borrowed w w' (resource ∷ [])

of_element-some : (o : Option Ref) (r : HostRef) → of_element o ≡ some r → o ≡ some (some r)
of_element-some none r h = cc
of_element-some (some x) r h = ap some h

-- Dropping the temporaries at the end of the statement brings the references back that were there before.
pub drop_all-Borrowed :
    (imports : Imports) (w w₁ w₂ : World) (temps : List Resource)
    → length w.table < i32_mod
    → Borrowed w w₁ temps
    → SameRefs w₁ w₂
    → (w₃ : World) × (drop_all imports temps w₂ ≡ some (tt, w₃)) × SameRefs w w₃
unfolding drop_all
drop_all-Borrowed imports w w₁ w₂ [] h (nothing e) same =
    (w₂, refl, subst (λ (v : World). SameRefs v w₂) (sym e) same)
drop_all-Borrowed imports w w₁ w₂ (x ∷ (y ∷ ys)) h b same = elim b [ ]
drop_all-Borrowed imports w w₁ w₂ (resource ∷ []) h (one r holds done) same =
    let here_ : live w₂.table resource.id ≡ some r =
      same.refs resource.id ∙ ap of_element holds.slot in
    let slot = of_element-some (get_elem? w₂.table resource.id) r here_ in
    let holds₂ : Holds w₂ resource r = record { slot = slot; index = holds.index } in
    let (w₃, dropped, _, len, slots) = drop-Holds imports w₂ resource r holds₂ in
    (
      w₃,
      rw (drop_all, dropped),
      record {
        refs = λ j.
            live-restored r w.table w₁.table w₂.table w₃.table resource.id j done (same.refs j)
              (slots j);
        bound = rw len same.bound;
      },
    )

-- The kinds that borrow.
unfoldable pub is_borrowed : ResourceKind → Bool
unfolding simple_kind
is_borrowed kind = elim (simple_kind kind) [ owned ↦ false | by_ref ↦ true | by_mut_ref ↦ true ]

new_non_null-Borrowed :
    (imports : Imports) (r : Ref) (resource : Resource) (w w₁ : World)
    → length w.table < i32_mod
    → new_non_null imports r w ≡ some (resource, w₁)
    → Borrowed w w₁ (resource ∷ [])
new_non_null-Borrowed imports r resource w w₁ h e =
    let (q, _, made) = new_non_null-new imports w w₁ r resource h e in
    let (a, same, holds, done, _) = new-Holds imports w w₁ q (some resource) h made in
    let this : a ≡ resource = cc in
    subst (λ (x : Resource). Borrowed w w₁ (x ∷ [])) this (one q holds done)

new-Borrowed :
    (imports : Imports) (r : Ref) (o : Option Resource) (w w₁ : World)
    → length w.table < i32_mod
    → new imports r w ≡ some (o, w₁)
    → Borrowed w w₁ (held o)
new-Borrowed imports none o w w₁ h e =
    let (made, _, _) = new-null imports w h in
    let both : ◌≡◌ {A = Option (Option Resource × World)} (some (none, w)) (some (o, w₁)) =
      sym made ∙ e in
    let same : none ≡ o = cc in
    let end : w ≡ w₁ = cc in
    subst (λ (x : Option Resource). Borrowed w w₁ (held x)) same (nothing end)
new-Borrowed imports (some r) o w w₁ h e =
    let (resource, made, holds, done, _) = new-Holds imports w w₁ r o h e in
    subst (λ (x : Option Resource). Borrowed w w₁ (held x)) (sym made) (one r holds done)

-- The conversion of an argument that becomes a reference.
pub eval-Borrowed :
    (imports : Imports) (r : Ref) (w w₁ : World) (kind : ResourceKind) (arg : Str) (cr : Segments)
    (env : Str → Val) (out : Result)
    → length w.table < i32_mod
    → is_borrowed kind ≡ true
    → env arg ≡ extern r
    → eval imports env (initialize_for_export kind arg cr) w ≡ some (out, w₁)
    → Borrowed w w₁ out.1
unfolding is_borrowed simple_kind
eval-Borrowed imports r w w₁ kind arg cr env out h b k e =
    of_kind kind b (eval-Made imports r w w₁ kind arg cr env out k e)
  where
    temporary : (made : Result) → out ≡ made → Borrowed w w₁ made.1 → Borrowed w w₁ out.1
    temporary made same = subst (λ (x : Result). Borrowed w w₁ x.1) (sym same)

    of_kind :
        (kind : ResourceKind)
        → is_borrowed kind ≡ true
        → Made imports r w w₁ kind out
        → Borrowed w w₁ out.1
    of_kind (ResourceKind.simple owned) b made = cc
    of_kind (ResourceKind.option owned) b made = cc
    of_kind (ResourceKind.simple by_ref) b (a, made, same) =
        temporary _ same (new_non_null-Borrowed imports r a w w₁ h made)
    of_kind (ResourceKind.simple by_mut_ref) b (a, made, same) =
        temporary _ same (new_non_null-Borrowed imports r a w w₁ h made)
    of_kind (ResourceKind.option by_ref) b (o, made, same) =
        temporary _ same (new-Borrowed imports r o w w₁ h made)
    of_kind (ResourceKind.option by_mut_ref) b (o, made, same) =
        temporary _ same (new-Borrowed imports r o w w₁ h made)
