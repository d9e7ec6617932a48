-- ===== src/Patched/Loop.antt =====
-- The loop that looks for a null element from `free_idx` downwards.
use externref.Prelude.{
  ℕ, zero, suc, ◌<◌, ◌≡◌, refl, ap, ◌∙◌, Bool, false, List, [], ◌∷◌, none, some, ◌==◌, ne→==,
  ==_refl, ◌⊎◌, inl, inr, if◌then◌else◌, length, get_elem?, get_elem?-some, arith,
}
use externref.Wasm.{
  HostRef, Ref, Table, Value, i32, ref, Machine, branch, Exit, i32_mod, is_null, exec, exec_instr,
  exec_get, exec_set, exec_binary, exec_is_null, exec_table_get, fetch, repeat, and_then, choose,
  leave,
}
use externref.Patched.{break_id, loop_id, loop_body}

-- The machine inside of the insertion: its argument and its counter are the locals.
abbrev pub at : List Value → Ref → ℕ → Table → List (ℕ × Ref) → Machine
at st v i t calls = record { stack = st; locals = ref v ∷ i32 i ∷ []; table = t; calls = calls }

-- One instruction after the other, with everything open.
unfoldable pub machine_code : Unit {0}
unfolding exec exec_instr exec_get exec_set exec_binary exec_is_null exec_table_get fetch repeat
    and_then choose leave
machine_code = tt

module _ (grows : ℕ → Bool) (rounds : ℕ) (st : List Value) (v : Ref) (t : Table)
    (calls : List (ℕ × Ref)) where
  loop_body-null :
      (i : ℕ)
      → get_elem? t i ≡ some none
      → exec grows rounds loop_body (at st v i t calls) ≡ branch break_id (at st v i t calls)
  unfolding loop_body machine_code
  loop_body-null i e = rw (e, and_then, fetch)

  loop_body-zero :
      (r : HostRef)
      → get_elem? t 0 ≡ some (some r)
      → exec grows rounds loop_body (at st v 0 t calls)
        ≡ branch break_id (at st v (length t) t calls)
  unfolding loop_body machine_code
  loop_body-zero r e = rw (e, and_then, fetch)

  loop_body-suc :
      (i : ℕ) (r : HostRef)
      → get_elem? t (suc i) ≡ some (some r)
      → suc i < i32_mod
      → exec grows rounds loop_body (at st v (suc i) t calls) ≡ branch loop_id (at st v i t calls)
  unfolding loop_body machine_code
  loop_body-suc i r e h =
      rw (e, and_then, fetch, ne→== (suc i) 0 (omega arith))
        (ap (λ (k : ℕ). branch loop_id (at st v k t calls)) (omega arith))

-- The code's search, in the table itself: the first null element from `i` down, else the size.
unfoldable pub search_from : Table → ℕ → ℕ
search_from t zero = elim (get_elem? t 0) [
  | none ↦ length t
  | some r ↦ if is_null r then 0 else length t
]
search_from t (suc i) =
    let below = search_from t i in
    elim (get_elem? t (suc i)) [ none ↦ below | some r ↦ if is_null r then suc i else below ]

-- The first null element from the end, else the size of the table.
unfoldable pub search_below : Table → ℕ → ℕ
search_below t zero = length t
search_below t (suc i) = search_from t i

abbrev pub free_index : Table → ℕ
free_index t = search_below t (length t)

repeat_break :
    (rounds l : ℕ) (st : List Value) (body : Machine → Exit) (m m' : Machine)
    → body m ≡ branch break_id m'
    → (break_id == l) ≡ false
    → repeat (suc rounds) l st body m ≡ branch break_id m'
unfolding repeat
repeat_break rounds l st body m m' e h = rw (repeat, e, h)

repeat_again :
    (rounds l : ℕ) (st : List Value) (body : Machine → Exit) (m m' : Machine)
    → body m ≡ branch l m'
    → repeat (suc rounds) l st body m ≡ repeat rounds l st body (record m' { stack = st })
unfolding repeat
repeat_again rounds l st body m m' e = rw (repeat, e, ==_refl l)

-- An element of the table is null or a reference.
pub slot_cases :
    (t : Table) (i : ℕ)
    → i < length t
    → (get_elem? t i ≡ some none) ⊎ ((r : HostRef) × (get_elem? t i ≡ some (some r)))
slot_cases t i h = of_slot (get_elem?-some t i h)
  where
    of_slot :
        (a : Ref) × (get_elem? t i ≡ some a)
        → (get_elem? t i ≡ some none) ⊎ ((r : HostRef) × (get_elem? t i ≡ some (some r)))
    of_slot (none, e) = inl e
    of_slot (some r, e) = inr (r, e)

-- More rounds than the index at which the search begins are enough.
module _ (grows : ℕ → Bool) (n : ℕ) (st : List Value) (v : Ref) (t : Table)
    (calls : List (ℕ × Ref)) where
  pub repeat-search_from :
      (i rounds : ℕ)
      → i < length t
      → i < i32_mod
      → i < rounds
      → repeat rounds loop_id st (exec grows n loop_body) (at st v i t calls)
        ≡ branch break_id (at st v (search_from t i) t calls)
  unfolding search_from
  repeat-search_from i zero h k enough = absurd (omega arith)
  repeat-search_from zero (suc rounds) h k enough = elim (slot_cases t 0 h) [
    | inl e ↦
        repeat_break rounds loop_id st _ _ _ (loop_body-null grows n st v t calls 0 e) refl
        ∙ rw (search_from, e)
    | inr (r, e) ↦
        repeat_break rounds loop_id st _ _ _ (loop_body-zero grows n st v t calls r e) refl
        ∙ rw (search_from, e)
  ]
  repeat-search_from (suc i) (suc rounds) h k enough = elim (slot_cases t (suc i) h) [
    | inl e ↦
        repeat_break rounds loop_id st _ _ _ (loop_body-null grows n st v t calls (suc i) e) refl
        ∙ rw (search_from, e)
    | inr (r, e) ↦
        repeat_again rounds loop_id st _ _ _ (loop_body-suc grows n st v t calls i r e k)
        ∙ repeat-search_from i rounds (omega arith) (omega arith) (omega arith)
        ∙ rw (search_from, e)
  ]
