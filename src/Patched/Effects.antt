-- ===== src/Patched/Effects.antt =====
-- What an insertion and a dropping leave in the table, element by element.
use externref.Prelude.{
  ℕ, zero, suc, ◌+◌, ◌<◌, ◌≡◌, ◌≢◌, refl, ap, subst, ◌∙◌, Bool, List, [], ◌∷◌, ◌++◌, Option, none,
  some, ◌==◌, ◌⊎◌, inl, inr, if◌then◌else◌, length, length-append, length-set, get_elem?,
  get_elem?-set_self, get_elem?-set_ne, set, arith, ne→==, ==_refl, ==→eq, Bool-cases, Option-cases,
}
use externref.Wasm.{HostRef, Ref, Table, Value, i32, ref, i32_mod, minus_one, answer, trapped}
use externref.Patched.Loop.{free_index}
use externref.Patched.Slots.{free_index_cases}
use externref.Patched.Insert.{insert, may_grow, fits_below}
use externref.Patched.Access.{get, drop, hook_calls, slot_lt}

-- `t'` is `t` with `r` at `i`, which was null, or past the end of a table with no null element.
pub record Inserted (r : HostRef) (t : Table) (i : ℕ) (t' : Table) : Type 0 where
  pub slots : (j : ℕ) → get_elem? t' j ≡ (if j == i then some (some r) else get_elem? t j)
  pub place :
      (get_elem? t i ≡ some none) × (length t' ≡ length t)
      ⊎ (i ≡ length t) × (length t' ≡ length t + 1) × ((j : ℕ) → get_elem? t j ≢ some none)
  pub index : i < minus_one
  pub bound : length t' < i32_mod

slots-set :
    (t : Table) (i : ℕ) (v : Ref)
    → i < length t
    → (j : ℕ) → get_elem? (set t i v) j ≡ (if j == i then some v else get_elem? t j)
slots-set t i v h j = elim (Bool-cases (j == i)) [
  | inl same ↦ rw (same, ==→eq j i same) (get_elem?-set_self t i v h)
  | inr other ↦
      rw other (get_elem?-set_ne t i j v λ e. cc (other, ap (λ (k : ℕ). j == k) e, ==_refl j))
]

slots-append :
    (t : Table) (v : Ref) (j : ℕ)
    → get_elem? (t ++ (v ∷ [])) j ≡ (if j == length t then some v else get_elem? t j)
slots-append [] v zero = refl
slots-append [] v (suc j) = rw (ne→== (suc j) 0 (omega arith))
slots-append (x ∷ t) v zero = rw (ne→== 0 (suc (length t)) (omega arith))
slots-append (x ∷ t) v (suc j) =
    slots-append t v j ∙ ap (λ (b : Bool). if b then some v else get_elem? t j) (same j (length t))
  where
    same : (a b : ℕ) → (a == b) ≡ (suc a == suc b)
    same a b = ground arith

no_null :
    (t : Table)
    → ((j : ℕ) → j < length t → get_elem? t j ≢ some none)
    → (j : ℕ) → get_elem? t j ≢ some none
no_null t h j e = h j (slot_lt t j none e) e

-- On a table within the limits, an insertion of a reference that ends with an answer returns one index, below
-- that of null, calls no function, and makes the table differ at the index alone: it held null, or it was the
-- end of a table without null. The new table is within the limits.
pub insert-Inserted :
    (grows : ℕ → Bool) (r : HostRef) (t t' : Table) (vs : List Value) (calls : List (ℕ × Ref))
    → length t < i32_mod
    → insert grows (some r) t ≡ answer vs t' calls
    → (i : ℕ) × (vs ≡ i32 i ∷ []) × (calls ≡ []) × Inserted r t i t'
unfolding insert
insert-Inserted grows r t t' vs calls h e = elim (free_index_cases t) [
  | inl (lt, null, _) ↦
      let e' : answer (i32 (free_index t) ∷ []) (set t (free_index t) (some r)) []
          ≡ answer vs t' calls =
        rw (ne→== (free_index t) (length t) (omega arith)) at e in
      let same : set t (free_index t) (some r) ≡ t' = cc in
      (
        free_index t,
        cc,
        cc,
        subst (Inserted r t (free_index t)) same (record {
          slots = slots-set t (free_index t) (some r) lt;
          place = inl (null, length-set t (free_index t) (some r));
          index = omega arith;
          bound = rw length-set h;
        }),
      )
  | inr (end, full) ↦ elim (Bool-cases (may_grow grows t)) [
    | inl may ↦
        let e' : answer (i32 (length t) ∷ []) (t ++ (some r ∷ [])) [] ≡ answer vs t' calls =
          rw (end, ==_refl (length t), may) at e in
        let same : t ++ (some r ∷ []) ≡ t' = cc in
        let fits : length t + 1 < i32_mod = fits_below (length t) (grows (length t)) may in
        (
          length t,
          cc,
          cc,
          subst (Inserted r t (length t)) same (record {
            slots = slots-append t (some r);
            place = inr (refl, length-append t _, no_null t full);
            index = omega arith;
            bound = rw length-append fits;
          }),
        )
    | inr no_room ↦
        let e' : trapped ≡ answer vs t' calls = rw (end, ==_refl (length t), no_room) at e in cc
  ]
]

-- A dropping that ends with an answer met an element at its index: that became null and no other element
-- changed, the table kept its length, and the calls are those of the hook on the old element.
pub drop-slots :
    (hook : Option ℕ) (i : ℕ) (t t' : Table) (vs : List Value) (calls : List (ℕ × Ref))
    → drop hook i t ≡ answer vs t' calls
    → (r : Ref) × (get_elem? t i ≡ some r)
      × (calls ≡ hook_calls hook r)
      × (length t' ≡ length t)
      × ((j : ℕ) → get_elem? t' j ≡ (if j == i then some none else get_elem? t j))
unfolding drop
drop-slots hook i t t' vs calls e = elim (Option-cases (get_elem? t i)) [
  | inl out ↦ let e' : trapped ≡ answer vs t' calls = rw (drop, out) at e in cc
  | inr (r, slot) ↦
      let e' : answer [] (set t i none) (hook_calls hook r) ≡ answer vs t' calls =
        rw (drop, slot) at e in
      let same : set t i none ≡ t' = cc in
      (
        r,
        slot,
        cc,
        rw (← same) (length-set t i none),
        rw (← same) (slots-set t i none (slot_lt t i r slot)),
      )
]

-- On a table within the limits, if an insertion of a reference returns an index, then reading at the index
-- gives the reference and leaves the new table as it is.
pub get-insert :
    (grows : ℕ → Bool) (r : HostRef) (t t' : Table) (i : ℕ) (calls : List (ℕ × Ref))
    → length t < i32_mod
    → insert grows (some r) t ≡ answer (i32 i ∷ []) t' calls
    → get i t' ≡ answer (ref (some r) ∷ []) t' []
unfolding get
get-insert grows r t t' i calls h e =
    let (k, vs, _, done) = insert-Inserted grows r t t' _ calls h e in
    let same : k ≡ i = cc in
    let small : i < minus_one = rw (← same) done.index in
    rw (ne→== i minus_one (omega arith), done.slots i, ← same, ==_refl k)
