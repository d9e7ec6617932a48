-- ===== src/Macro/Conversions/Made.antt =====
-- What the conversions of crates/macro/src/externref.rs for the parameters of an export evaluate to.
use externref.Prelude.{◌≡◌, refl, sym, ap, ◌∙◌, List, [], ◌∷◌, Option, none, some, Str}
use externref.Wasm.{Ref}
use externref.Resource.{Imports, World, Resource, go_on, new, new_non_null}
use externref.Macro.Syntax.{Segments}
use externref.Macro.Kinds.{
  SimpleResourceKind, owned, by_ref, by_mut_ref, ResourceKind, initialize_for_export,
}
use externref.Macro.Conversions.{
  Val, extern, simple, option, Result, borrow, borrow_option, call_new, call_new_non_null,
  owned_simple, owned_option, more, on, eval,
}

pub pair-inj :
    {A : Type 0} (a b : A) (w w' : World)
    → ◌≡◌ {A = Option (A × World)} (some (a, w)) (some (b, w'))
    → (a ≡ b) × (w ≡ w')
pair-inj a b w w' e = (cc, cc)

abbrev pub held : Option Resource → List Resource
held none = []
held (some resource) = resource ∷ []

-- The temporaries of a kind: a borrowed value is one.
abbrev pub temps : SimpleResourceKind → List Resource → List Resource
temps owned rs = []
temps by_ref rs = rs
temps by_mut_ref rs = rs

-- The resource that was made of the reference `r`, in the world `w`, and how the result holds it.
abbrev pub Made : Imports → Ref → World → World → ResourceKind → Result → Type 0
Made imports r w w' (ResourceKind.simple kind) out =
    (a : Resource) × (new_non_null imports r w ≡ some (a, w'))
    × (out ≡ (simple kind a, temps kind (a ∷ [])))
Made imports r w w' (ResourceKind.option kind) out =
    (o : Option Resource) × (new imports r w ≡ some (o, w'))
    × (out ≡ (option kind o, temps kind (held o)))

-- Code that goes on behind a call, and ends where the call does.
behind :
    {A : Type 0} (F : Option (A × World) → Option (Result × World)) (f : A → Result)
    (o : Option (A × World)) (w' : World) (out : Result)
    → F none ≡ none
    → ((a : A) (v : World) → F (some (a, v)) ≡ some (f a, v))
    → F o ≡ some (out, w')
    → (a : A) × (o ≡ some (a, w')) × (out ≡ f a)
behind F f none w' out n s e = let e' : none ≡ some (out, w') = sym n ∙ e in cc
behind F f (some (a, v)) w' out n s e =
    let (same, end) = pair-inj (f a) out v w' (sym (s a v) ∙ e) in
    (a, ap (λ (u : World). some (a, u)) end, sym same)

borrow_option-held :
    (kind : SimpleResourceKind) (o : Option Resource) (v : World)
    → go_on (go_on (go_on (some (o, v)) owned_option) (more [])) (on (borrow_option kind))
      ≡ some ((option kind o, held o), v)
unfolding borrow_option
borrow_option-held kind none v = refl
borrow_option-held kind (some a) v = refl

pub eval-Made :
    (imports : Imports) (r : Ref) (w w' : World) (kind : ResourceKind) (arg : Str) (cr : Segments)
    (env : Str → Val) (out : Result)
    → env arg ≡ extern r
    → eval imports env (initialize_for_export kind arg cr) w ≡ some (out, w')
    → Made imports r w w' kind out
unfolding eval initialize_for_export call_new call_new_non_null borrow
eval-Made imports r w w' (ResourceKind.simple owned) arg cr env out k e =
    behind (λ o. go_on (go_on o owned_simple) (more [])) (λ a. (simple owned a, []))
      (new_non_null imports r w) w' out refl (λ a v. refl) (rw k at e)
eval-Made imports r w w' (ResourceKind.simple by_ref) arg cr env out k e =
    behind (λ o. go_on (go_on (go_on o owned_simple) (more [])) (on (borrow by_ref)))
      (λ a. (simple by_ref a, a ∷ [])) (new_non_null imports r w) w' out refl (λ a v. refl)
      (rw k at e)
eval-Made imports r w w' (ResourceKind.simple by_mut_ref) arg cr env out k e =
    behind (λ o. go_on (go_on (go_on o owned_simple) (more [])) (on (borrow by_mut_ref)))
      (λ a. (simple by_mut_ref a, a ∷ [])) (new_non_null imports r w) w' out refl (λ a v. refl)
      (rw k at e)
eval-Made imports r w w' (ResourceKind.option owned) arg cr env out k e =
    behind (λ o. go_on (go_on o owned_option) (more [])) (λ o. (option owned o, []))
      (new imports r w) w' out refl (λ a v. refl) (rw k at e)
eval-Made imports r w w' (ResourceKind.option by_ref) arg cr env out k e =
    behind (λ o. go_on (go_on (go_on o owned_option) (more [])) (on (borrow_option by_ref)))
      (λ o. (option by_ref o, held o)) (new imports r w) w' out refl (borrow_option-held by_ref)
      (rw k at e)
eval-Made imports r w w' (ResourceKind.option by_mut_ref) arg cr env out k e =
    behind (λ o. go_on (go_on (go_on o owned_option) (more [])) (on (borrow_option by_mut_ref)))
      (λ o. (option by_mut_ref o, held o)) (new imports r w) w' out refl
      (borrow_option-held by_mut_ref) (rw k at e)
