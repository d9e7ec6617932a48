-- ===== src/Patched/Insert.antt =====
-- The insertion function as a whole, against the table operation that it performs.
use externref.Prelude.{
  ℕ, suc, ◌+◌, ◌-◌, ◌%◌, ◌≤◌, ◌<◌, ◌≡◌, refl, Bool, true, false, [], ◌∷◌, ◌++◌, none, some, ◌==◌,
  ltb, lt→ltb, inl, inr, if◌then◌else◌, ◌&&◌, length, set, arith, ne→==, ==_refl, Bool-cases,
}
use externref.Wasm.{
  HostRef, Ref, Table, i32, ref, Machine, returned, trap, i32_mod, minus_one, exec, and_then,
  choose, exec_table_grow, exec_table_set, Code, nop, ◌⨾◌, Answer, answer, trapped, invoke,
  answer_of, local_get,
}
use externref.Patched.{null_check, find_free, store_value, patch_insert_fn, free_idx}
use externref.Patched.Loop.{
  at, machine_code, search_from, search_below, free_index, repeat-search_from,
}
use externref.Patched.Slots.{free_index_cases}

-- May the table take one more element?
abbrev pub may_grow : (ℕ → Bool) → Table → Bool
may_grow grows t = grows (length t) && ltb (length t + 1) i32_mod

-- The insertion as an operation on the table.
unfoldable pub insert : (ℕ → Bool) → Ref → Table → Answer
insert grows none t = answer (i32 minus_one ∷ []) t []
insert grows (some r) t =
    if free_index t == length t
    then (if may_grow grows t
        then answer (i32 (length t) ∷ []) (t ++ (some r ∷ [])) []
        else trapped)
    else answer (i32 (free_index t) ∷ []) (set t (free_index t) (some r)) []

module _ (grows : ℕ → Bool) (n : ℕ) (t : Table) (rest : Code) where
  null_check-none :
      exec grows n (null_check rest) (at [] none 0 t [])
      ≡ returned (at (i32 minus_one ∷ []) none 0 t [])
  unfolding null_check machine_code
  null_check-none = refl

  null_check-some :
      (r : HostRef)
      → exec grows n (null_check rest) (at [] (some r) 0 t [])
        ≡ exec grows n rest (at [] (some r) 0 t [])
  unfolding null_check machine_code
  null_check-some r = refl

find_free_empty :
    (grows : ℕ → Bool) (n : ℕ) (rest : Code) (v : Ref)
    → exec grows n (find_free rest) (at [] v 0 [] []) ≡ exec grows n rest (at [] v 0 [] [])
unfolding find_free machine_code
find_free_empty grows n rest v = refl

last_index : (k i : ℕ) → k ≡ suc i → k < i32_mod → (k + i32_mod - 1) % i32_mod ≡ i
last_index k i e h = omega arith

find_free_more :
    (grows : ℕ → Bool) (n : ℕ) (rest : Code) (v : Ref) (t : Table) (i : ℕ)
    → length t ≡ suc i
    → length t < i32_mod
    → length t ≤ n
    → exec grows n (find_free rest) (at [] v 0 t [])
      ≡ exec grows n rest (at [] v (search_from t i) t [])
unfolding find_free machine_code
find_free_more grows n rest v t i e h enough = rw (
  and_then,
  choose,
  ne→== (length t) 0 (omega arith),
  last_index (length t) i e h,
  repeat-search_from grows n [] v t [] i n (omega arith) (omega arith) (omega arith),
)

find_free_lem :
    (grows : ℕ → Bool) (n : ℕ) (rest : Code) (v : Ref) (t : Table)
    → length t < i32_mod
    → length t ≤ n
    → exec grows n (find_free rest) (at [] v 0 t [])
      ≡ exec grows n rest (at [] v (free_index t) t [])
unfolding search_below
find_free_lem grows n rest v [] h enough = find_free_empty grows n rest v
find_free_lem grows n rest v (x ∷ t) h enough =
    find_free_more grows n rest v (x ∷ t) (length t) refl h enough

module _ (grows : ℕ → Bool) (n : ℕ) (rest : Code) (r : HostRef) (t : Table) where
  abbrev holding : ℕ → Table → Machine
  holding i t' = at [] (some r) i t' []

  store_value-set :
      (i : ℕ)
      → i < length t
      → exec grows n (store_value rest) (holding i t)
        ≡ exec grows n rest (holding i (set t i (some r)))
  unfolding store_value machine_code exec_table_set
  store_value-set i h = rw (ne→== i (length t) (omega arith), lt→ltb i (length t) h)

  store_value_grow :
      may_grow grows t ≡ true
      → length t + 1 < i32_mod
      → exec grows n (store_value rest) (holding (length t) t)
        ≡ exec grows n rest (holding (length t) (t ++ (some r ∷ [])))
  unfolding store_value machine_code exec_table_grow
  store_value_grow may fits = rw (==_refl (length t), may, ne→== (length t) minus_one (omega arith))

  store_value_trap :
      may_grow grows t ≡ false → exec grows n (store_value rest) (holding (length t) t) ≡ trap
  unfolding store_value machine_code exec_table_grow
  store_value_trap may = rw (==_refl (length t), may)

  stored :
      (i : ℕ) (t' : Table)
      → answer_of (exec grows n (local_get free_idx ⨾ nop) (holding i t'))
        ≡ answer (i32 i ∷ []) t' []
  unfolding machine_code
  stored i t' = refl

pub fits_below : (n : ℕ) (b : Bool) → (b && ltb (n + 1) i32_mod) ≡ true → n + 1 < i32_mod
fits_below n b e = ground arith

-- The last part on every branch: a free element, a table that grows, and one that does not.
store_value_lem :
    (grows : ℕ → Bool) (n : ℕ) (r : HostRef) (t : Table)
    → answer_of (
        exec grows n
          (store_value (local_get free_idx ⨾ nop))
          (holding grows n nop r t (free_index t) t))
      ≡ insert grows (some r) t
unfolding insert
store_value_lem grows n r t = elim (free_index_cases t) [
  | inl (h, _, _) ↦ rw (
    store_value-set grows n _ r t (free_index t) h,
    stored grows n nop r t (free_index t),
    ne→== (free_index t) (length t) (omega arith),
  )
  | inr (e, _) ↦ elim (Bool-cases (may_grow grows t)) [
    | inl may ↦ rw (
      e,
      store_value_grow grows n _ r t may (fits_below (length t) (grows (length t)) may),
      stored grows n nop r t (length t),
      ==_refl (length t),
      may,
    )
    | inr no_room ↦ rw (e, store_value_trap grows n _ r t no_room, ==_refl (length t), no_room)
  ]
]

-- The generated insertion function, run on a table within the limits of WebAssembly with at least as
-- many rounds as the table has elements, always ends, and does what `insert` does: on null, with a
-- free element, with a table that grows, and with one that may not.
pub invoke-insert :
    (grows : ℕ → Bool) (n : ℕ) (v : Ref) (t : Table)
    → length t < i32_mod
    → length t ≤ n
    → invoke grows n patch_insert_fn 1 (ref v ∷ []) t ≡ insert grows v t
unfolding invoke patch_insert_fn
invoke-insert grows n none t h enough = rw null_check-none (unfold insert in refl)
invoke-insert grows n (some r) t h enough =
    rw (null_check-some grows n t _ r, find_free_lem grows n _ (some r) t h enough)
      (store_value_lem grows n r t)
