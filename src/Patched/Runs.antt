-- ===== src/Patched/Runs.antt =====
-- What runs of the generated functions do to the table.
use externref.Prelude.{
  ℕ, ◌≤◌, ◌<◌, ◌≡◌, sym, ◌∙◌, Bool, false, ◌&&◌, List, [], ◌∷◌, Option, none, some, inl, inr,
  Bool-cases, set, ==→eq, ==_refl, ne→==, true, arith, ◌⊎◌, ◌++◌, ◌==◌, ltb, if◌then◌else◌, length,
  get_elem?,
}
use externref.Wasm.{HostRef, Ref, Table, Value, i32, ref, i32_mod, answer, trapped, invoke}
use externref.Patched.{patch_insert_fn, patch_get_fn, patch_drop_fn}
use externref.Patched.Loop.{free_index}
use externref.Patched.Slots.{null_at, free_index_lem, free_index_cases}
use externref.Patched.Insert.{insert, may_grow, invoke-insert}
use externref.Patched.Access.{slot_lt, hook_calls, invoke-get, invoke-drop}
use externref.Patched.Effects.{Inserted, insert-Inserted, drop-slots, get-insert}

insert-free_index :
    (grows : ℕ → Bool) (r : HostRef) (t t' : Table) (vs : List Value) (calls : List (ℕ × Ref))
    → insert grows (some r) t ≡ answer vs t' calls
    → vs ≡ i32 (free_index t) ∷ []
unfolding insert
insert-free_index grows r t t' vs calls e = elim (Bool-cases (free_index t == length t)) [
  | inr inside ↦
      let e' : answer (i32 (free_index t) ∷ []) _ [] ≡ answer vs t' calls =
        rw (insert, inside) at e in
      cc
  | inl end ↦ elim (Bool-cases (may_grow grows t)) [
    | inl room ↦
        let e' : answer (i32 (length t) ∷ []) (t ++ (some r ∷ [])) [] ≡ answer vs t' calls =
          rw (insert, end, room) at e in
        cc (==→eq (free_index t) (length t) end)
    | inr full ↦ let e' : trapped ≡ answer vs t' calls = rw (insert, end, full) at e in cc
  ]
]

insert-answers :
    (grows : ℕ → Bool) (r : HostRef) (t : Table)
    → ((j : ℕ) × (get_elem? t j ≡ some none)) ⊎ (may_grow grows t ≡ true)
    → (i : ℕ) × (t' : Table) × (insert grows (some r) t ≡ answer (i32 i ∷ []) t' [])
unfolding insert
insert-answers grows r t room = elim (free_index_cases t) [
  | inl (below, _, _) ↦ (
    free_index t,
    set t (free_index t) (some r),
    rw (ne→== (free_index t) (length t) (omega arith)),
  )
  | inr (end, full) ↦ elim room [
    | inl (j, null) ↦ absurd (full j (slot_lt t j none null) null)
    | inr may ↦ (length t, t ++ (some r ∷ []), rw (end, ==_refl (length t), may))
  ]
]

module _ (grows : ℕ → Bool) (n : ℕ) where
  -- On a table of fewer than 2^32 elements, with at least as many rounds, an insertion of a reference that ends
  -- with an answer returns one index, below that of null, calls no function, and makes the table differ at the
  -- index alone: it held null, or it was the end of a table without null. No null lies behind it.
  pub invoke-Inserted :
      (r : HostRef) (t t' : Table) (vs : List Value) (calls : List (ℕ × Ref))
      → length t < i32_mod
      → length t ≤ n
      → invoke grows n patch_insert_fn 1 (ref (some r) ∷ []) t ≡ answer vs t' calls
      → (i : ℕ) × (vs ≡ i32 i ∷ [])
        × (calls ≡ [])
        × Inserted r t i t'
        × ((j : ℕ) → (null_at t j && ltb i j) ≡ false)
  invoke-Inserted r t t' vs calls h enough e =
      let e' = sym (invoke-insert grows n (some r) t h enough) ∙ e in
      let (i, q, none_called, done) = insert-Inserted grows r t t' vs calls h e' in
      let same : free_index t ≡ i = cc (insert-free_index grows r t t' vs calls e') in
      (i, q, none_called, done, λ j. rw (← same) (free_index_lem t j).2)

  -- On a table of fewer than 2^32 elements, with at least as many rounds: if an insertion of a reference returns
  -- an index, then reading at the index gives the reference and leaves the new table as it is.
  pub invoke-get-insert :
      (r : HostRef) (t t' : Table) (i : ℕ) (calls : List (ℕ × Ref))
      → length t < i32_mod
      → length t ≤ n
      → invoke grows n patch_insert_fn 1 (ref (some r) ∷ []) t ≡ answer (i32 i ∷ []) t' calls
      → invoke grows n patch_get_fn 0 (i32 i ∷ []) t' ≡ answer (ref (some r) ∷ []) t' []
  invoke-get-insert r t t' i calls h enough e =
      invoke-get grows n i t'
      ∙ get-insert grows r t t' i calls h (sym (invoke-insert grows n (some r) t h enough) ∙ e)

  -- A dropping that ends with an answer met an element at its index: that became null and no other element
  -- changed, the table kept its length, and the calls are those of the hook on the old element.
  pub invoke-drop-slots :
      (hook : Option ℕ) (i : ℕ) (t t' : Table) (vs : List Value) (calls : List (ℕ × Ref))
      → invoke grows n (patch_drop_fn hook) 0 (i32 i ∷ []) t ≡ answer vs t' calls
      → (r : Ref) × (get_elem? t i ≡ some r)
        × (calls ≡ hook_calls hook r)
        × (length t' ≡ length t)
        × ((j : ℕ) → get_elem? t' j ≡ (if j == i then some none else get_elem? t j))
  invoke-drop-slots hook i t t' vs calls e =
      drop-slots hook i t t' vs calls (sym (invoke-drop grows n hook i t) ∙ e)

  -- On a table of fewer than 2^32 elements that has a null element or may grow, with at least as many rounds as it
  -- has elements, an insertion of a reference ends with an index.
  pub invoke-answers :
      (r : HostRef) (t : Table)
      → length t < i32_mod
      → length t ≤ n
      → ((j : ℕ) × (get_elem? t j ≡ some none)) ⊎ (may_grow grows t ≡ true)
      → (i : ℕ) × (t' : Table) × (invoke grows n patch_insert_fn 1 (ref (some r) ∷ []) t
          ≡ answer (i32 i ∷ []) t' [])
  invoke-answers r t h enough room =
      let (i, t', done) = insert-answers grows r t room in
      (i, t', invoke-insert grows n (some r) t h enough ∙ done)
