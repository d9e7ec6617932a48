-- ===== src/Resource/Laws.antt =====
-- What each operation of a `Resource` does to the table.
use externref.Prelude.{
  ℕ, ◌<◌, ◌≡◌, refl, sym, ap, subst, ◌∙◌, Bool, List, [], ◌∷◌, ◌++◌, append-nil, Option, none, some,
  ◌==◌, ==_refl, ne→==, if◌then◌else◌, length, get_elem?, arith,
}
use externref.Wasm.{
  HostRef, Ref, Table, Value, i32, ref, i32_mod, minus_one, Answer, answer, trapped, invalid,
  out_of_rounds,
}
use externref.Patched.Effects.{Inserted}
use externref.Resource.{
  Imports, World, Resource, usize_max, index_of, ref_of, unit_of, insert_externref, get_externref,
  drop_externref, new, new_non_null, drop, raw, take_raw, go_on-some,
}

-- A resource that stands for the reference `r`.
pub record Holds (w : World) (resource : Resource) (r : HostRef) : Type 0 where
  pub slot : get_elem? w.table resource.id ≡ some (some r)
  pub index : resource.id < minus_one

same_world : (w : World) → ◌≡◌ {A = World} (record { table = w.table; calls = w.calls ++ [] }) w
same_world w =
    ap (λ (c : List (ℕ × Ref)). record { table = w.table; calls = c }) (append-nil w.calls)

module _ (imports : Imports) (w : World) where
  insert_externref-null :
      length w.table < i32_mod → insert_externref imports none w ≡ some (minus_one, w)
  unfolding insert_externref
  insert_externref-null h =
      rw (imports.insert_null w.table h, index_of)
        (ap (λ (v : World). some (minus_one, v)) (same_world w))

  get_externref-null : get_externref imports minus_one w ≡ some (none, w)
  unfolding get_externref
  get_externref-null =
      rw (imports.get_null w.table, ref_of) (ap (λ (v : World). some (none, v)) (same_world w))

  get_externref-slot :
      (i : ℕ) (r : Ref)
      → i < minus_one
      → get_elem? w.table i ≡ some r
      → get_externref imports i w ≡ some (r, w)
  unfolding get_externref
  get_externref-slot i r h e =
      rw (imports.get_slot i w.table r h e, ref_of) (ap (λ (v : World). some (r, v)) (same_world w))

  -- On a table of fewer than 2^32 elements null makes no resource, where a resource must not be null it panics, and
  -- reading without a resource gives null; the table and the calls stay as they are.
  pub new-null :
      length w.table < i32_mod
      → (new imports none w ≡ some (none, w))
        × (new_non_null imports none w ≡ none)
        × (raw imports none w ≡ some (none, w))
  unfolding new new_non_null raw
  new-null h = (
    rw (new, insert_externref-null h),
    rw (new_non_null, insert_externref-null h),
    get_externref-null,
  )

  -- Reading a resource gives the reference that it holds and changes nothing.
  pub raw-Holds :
      (resource : Resource) (r : HostRef)
      → Holds w resource r
      → raw imports (some resource) w ≡ some (some r, w)
  unfolding raw
  raw-Holds resource r h = get_externref-slot resource.id (some r) h.index h.slot

  -- Dropping a resource that holds a reference ends, calls the hook on the reference and makes its element
  -- null, and no other; the table keeps its length.
  pub drop-Holds :
      (resource : Resource) (r : HostRef)
      → Holds w resource r
      → (w' : World) × (drop imports resource w ≡ some (tt, w'))
        × (w'.calls ≡ w.calls ++ imports.hook (some r))
        × (length w'.table ≡ length w.table)
        × ((j : ℕ)
            → get_elem? w'.table j ≡ (if j == resource.id then some none else get_elem? w.table j))
  unfolding drop drop_externref
  drop-Holds resource r h =
      let (t', done, len, slots) = imports.drop_slot resource.id w.table (some r) h.slot in
      (
        record { table = t'; calls = w.calls ++ imports.hook (some r) },
        rw (done, unit_of),
        refl,
        len,
        slots,
      )

-- What an insertion of a reference returned.
index_Inserted :
    (r : HostRef) (w w' : World) (i : ℕ) (a : Answer)
    → ((vs : List Value) (t' : Table) (calls : List (ℕ × Ref))
        → a ≡ answer vs t' calls
        → (k : ℕ) × (vs ≡ i32 k ∷ []) × (calls ≡ []) × Inserted r w.table k t')
    → index_of a w ≡ some (i, w')
    → Inserted r w.table i w'.table × (w'.calls ≡ w.calls)
unfolding index_of
index_Inserted r w w' i (answer (i32 j ∷ []) t calls) h e =
    let (k, ek, ec, done) = h (i32 j ∷ []) t calls refl in
    let same : k ≡ i = cc in
    let table : t ≡ w'.table = cc in
    (
      subst (λ (u : Table). Inserted r w.table i u) table
          (subst (λ (n : ℕ). Inserted r w.table n t) same done),
      new_calls t calls ec e,
    )
  where
    new_calls :
        (t : Table) (calls : List (ℕ × Ref))
        → calls ≡ []
        → ◌≡◌ {A = Option (ℕ × World)}
            (some (j, record { table = t; calls = w.calls ++ calls }))
            (some (i, w'))
        → w'.calls ≡ w.calls
    new_calls t calls ec e =
        let shape : w.calls ++ calls ≡ w'.calls = cc in
        sym shape ∙ ap (λ (c : List (ℕ × Ref)). w.calls ++ c) ec ∙ append-nil w.calls
index_Inserted r w w' i (answer [] t calls) h e = cc
index_Inserted r w w' i (answer (i32 j ∷ (v ∷ vs)) t calls) h e = cc
index_Inserted r w w' i (answer (ref x ∷ vs) t calls) h e = cc
index_Inserted r w w' i trapped h e = cc
index_Inserted r w w' i invalid h e = cc
index_Inserted r w w' i out_of_rounds h e = cc

insert_externref-Inserted :
    (imports : Imports) (w w' : World) (r : HostRef) (i : ℕ)
    → length w.table < i32_mod
    → insert_externref imports (some r) w ≡ some (i, w')
    → Inserted r w.table i w'.table × (w'.calls ≡ w.calls)
unfolding insert_externref
insert_externref-Inserted imports w w' r i h e =
    index_Inserted r w w' i (imports.insert (some r) w.table)
      (λ vs t' calls. imports.insert_some r w.table t' vs calls h) e

Holds-Inserted :
    (r : HostRef) (t : Table) (i : ℕ) (w' : World)
    → Inserted r t i w'.table
    → Holds w' (record { id = i }) r
Holds-Inserted r t i w' done = record {
  slot = done.slots i ∙ ap (λ (b : Bool). if b then some (some r) else get_elem? t i) (==_refl i);
  index = done.index;
}

new-some :
    (imports : Imports) (w w' : World) (r : HostRef) (o : Option Resource)
    → new imports (some r) w ≡ some (o, w')
    → (i : ℕ) × (insert_externref imports (some r) w ≡ some (i, w'))
      × (o ≡ (if i == usize_max then none else some (record { id = i })))
unfolding new
new-some imports w w' r o e =
    let (i, w₁, inserted, e') = go_on-some (insert_externref imports (some r) w) _ (o, w') e in
    let same : w₁ ≡ w' = cc in (i, inserted ∙ ap (λ (v : World). some (i, v)) same, cc)

-- On a table of fewer than 2^32 elements, if `new` ends on a reference that is not null, then it gives a resource that
-- holds the reference at an index that was free, and the other elements and the calls stay as they are.
pub new-Holds :
    (imports : Imports) (w w' : World) (r : HostRef) (o : Option Resource)
    → length w.table < i32_mod
    → new imports (some r) w ≡ some (o, w')
    → (resource : Resource) × (o ≡ some resource)
      × Holds w' resource r
      × Inserted r w.table resource.id w'.table
      × (w'.calls ≡ w.calls)
new-Holds imports w w' r o h e =
    let (i, inserted, eo) = new-some imports w w' r o e in
    let (done, calls) = insert_externref-Inserted imports w w' r i h inserted in
    (
      record { id = i },
      eo ∙ rw (ne→== i usize_max (omega (arith, done.index))),
      Holds-Inserted r w.table i w' done,
      done,
      calls,
    )

-- `new_non_null` ends only on a reference that is not null, and then it does what `new` does.
pub new_non_null-new :
    (imports : Imports) (w w' : World) (r : Ref) (resource : Resource)
    → length w.table < i32_mod
    → new_non_null imports r w ≡ some (resource, w')
    → (q : HostRef) × (r ≡ some q) × (new imports (some q) w ≡ some (some resource, w'))
unfolding new_non_null new
new_non_null-new imports w w' none resource h e = let (_, refused, _) = new-null imports w h in cc
new_non_null-new imports w w' (some q) resource h e =
    let (i, w₁, inserted, e') =
      go_on-some (insert_externref imports (some q) w) _ (resource, w') e in
    let (done, _) = insert_externref-Inserted imports w w₁ q i h inserted in
    let other = ne→== i usize_max (omega (arith, done.index)) in
    let made : ◌≡◌ {A = Option (Resource × World)} (some (record { id = i }, w₁))
        (some (resource, w')) =
      rw other at e' in
    let same : ◌≡◌ {A = Resource} (record { id = i }) resource = cc in
    let end : w₁ ≡ w' = cc in
    (
      q,
      refl,
      rw (new, inserted, other)
          (ap (λ (x : Resource). some (some x, w₁)) same
            ∙ ap (λ (v : World). some (some resource, v)) end),
    )

-- Taking the reference out of a resource that holds one drops the resource first: the host gets null,
-- whatever the reference was, and the hook is called on it.
pub take_raw-null :
    (imports : Imports) (w : World) (resource : Resource) (r : HostRef)
    → Holds w resource r
    → (w' : World) × (take_raw imports (some resource) w ≡ some (none, w'))
      × (w'.calls ≡ w.calls ++ imports.hook (some r))
unfolding take_raw
take_raw-null imports w resource r h =
    let (w', dropped, calls, len, slots) = drop-Holds imports w resource r h in
    let empty : get_elem? w'.table resource.id ≡ some none =
      slots resource.id
      ∙ ap (λ (b : Bool). if b then some none else get_elem? w.table resource.id)
          (==_refl resource.id) in
    (
      w',
      rw (take_raw, dropped, get_externref-slot imports w' resource.id none h.index empty),
      calls,
    )
