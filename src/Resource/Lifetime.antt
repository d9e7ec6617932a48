-- ===== src/Resource/Lifetime.antt =====
-- From the making of a resource to its drop, for `Resource` of crates/lib/src/lib.rs.
use externref.Prelude.{
  ℕ, ◌<◌, ◌≡◌, refl, sym, ap, ◌∙◌, Bool, true, false, ◌++◌, Option, none, some, ◌==◌, ==→eq, inl,
  inr, Bool-cases, if◌then◌else◌, length, get_elem?, get_elem?-none, arith,
}
use externref.Wasm.{HostRef, Ref, Table, i32_mod}
use externref.Patched.Effects.{Inserted}
use externref.Resource.{Imports, World, Resource, new, raw, drop}
use externref.Resource.Laws.{drop-Holds, new-Holds, raw-Holds}

-- The reference in an element, or null where there is none.
abbrev pub of_element : Option Ref → Ref
of_element none = none
of_element (some r) = r

abbrev pub live : Table → ℕ → Ref
live t j = of_element (get_elem? t j)

of_element-if :
    (b : Bool) (r : Ref) (o : Option Ref)
    → of_element (if b then some r else o) ≡ (if b then r else of_element o)
of_element-if true r o = refl
of_element-if false r o = refl

live-if :
    (t t' : Table) (i j : ℕ) (r : Ref)
    → get_elem? t' j ≡ (if j == i then some r else get_elem? t j)
    → live t' j ≡ (if j == i then r else live t j)
live-if t t' i j r h = ap of_element h ∙ of_element-if (j == i) r (get_elem? t j)

pub live-Inserted :
    (r : HostRef) (t t' : Table) (i j : ℕ)
    → Inserted r t i t'
    → live t' j ≡ (if j == i then some r else live t j)
live-Inserted r t t' i j done = live-if t t' i j (some r) (done.slots j)

pub free-Inserted : (r : HostRef) (t t' : Table) (i : ℕ) → Inserted r t i t' → live t i ≡ none
free-Inserted r t t' i done = elim done.place [
  | inl (null, _) ↦ ap of_element null
  | inr (end, _, _) ↦ ap of_element (get_elem?-none t i (omega (arith, end)))
]

-- An element that a resource was made for and that was dropped again.
pub live-restored :
    (r : HostRef) (t t₁ t₂ t₃ : Table) (i j : ℕ)
    → Inserted r t i t₁
    → live t₂ j ≡ live t₁ j
    → get_elem? t₃ j ≡ (if j == i then some none else get_elem? t₂ j)
    → live t₃ j ≡ live t j
live-restored r t t₁ t₂ t₃ i j done same slots =
    let first = live-Inserted r t t₁ i j done in
    let last = live-if t₂ t₃ i j none slots in
    elim (Bool-cases (j == i)) [
      | inl here_ ↦
          (rw here_ at last) ∙ sym (ap (live t) (==→eq j i here_) ∙ free-Inserted r t t₁ i done)
      | inr other ↦ (rw other at last) ∙ same ∙ (rw other at first)
    ]

-- On a table of fewer than 2^32 elements, let `new` end for a reference. Then it gives a resource, for whose index the
-- table had no reference, and calls nothing; reading the resource gives the reference and changes nothing; and
-- dropping the resource next ends, calls the hook on the reference, keeps the length of the table, and leaves at
-- every index the reference, or none, that was there before `new`.
pub drop-new :
    (imports : Imports) (w w₁ : World) (r : HostRef) (o : Option Resource)
    → length w.table < i32_mod
    → new imports (some r) w ≡ some (o, w₁)
    → (resource : Resource) × (w₂ : World) × (o ≡ some resource)
      × (live w.table resource.id ≡ none)
      × (w₁.calls ≡ w.calls)
      × (raw imports (some resource) w₁ ≡ some (some r, w₁))
      × (drop imports resource w₁ ≡ some (tt, w₂))
      × (w₂.calls ≡ w.calls ++ imports.hook (some r))
      × (length w₂.table ≡ length w₁.table)
      × ((j : ℕ) → live w₂.table j ≡ live w.table j)
drop-new imports w w₁ r o h made =
    let (resource, same, holds, done, calls) = new-Holds imports w w₁ r o h made in
    let (w₂, dropped, hooked, len, slots) = drop-Holds imports w₁ resource r holds in
    (
      resource,
      w₂,
      same,
      free-Inserted r w.table w₁.table resource.id done,
      calls,
      raw-Holds imports w₁ resource r holds,
      dropped,
      hooked ∙ ap (λ c. c ++ imports.hook (some r)) calls,
      len,
      λ j. live-restored r w.table w₁.table w₁.table w₂.table resource.id j done refl (slots j),
    )
