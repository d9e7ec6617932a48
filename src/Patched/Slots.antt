-- ===== src/Patched/Slots.antt =====
-- Which element the insertion takes.
use externref.Prelude.{
  ltb→le, ℕ, zero, suc, ◌≤◌, ◌<◌, ◌≡◌, ◌≢◌, refl, sym, ap, ◌∙◌, Bool, true, false, none, some, ◌⊎◌,
  inl, inr, length, get_elem?, get_elem?-none, arith, true, false, ltb, lt→ltb, le→ltb, ◌&&◌, ◌==◌,
  ne→==, Option-cases, Bool-cases, ltb→lt,
}
use externref.Wasm.{HostRef, Table, is_null}
use externref.Patched.Loop.{search_from, search_below, free_index, slot_cases}

eq_or_lt : (j k : ℕ) → j < suc k → (j ≡ k) ⊎ (j < k)
eq_or_lt j k h = omega arith

-- `i` is null, and no null element of the first `k` lies behind it; or none of them is null.
abbrev pub Found : Table → ℕ → ℕ → Type 0
Found t k i =
    ((i < k) × (get_elem? t i ≡ some none) × ((j : ℕ) → i < j → j < k → get_elem? t j ≢ some none))
    ⊎ ((i ≡ length t) × ((j : ℕ) → j < k → get_elem? t j ≢ some none))

Found-suc :
    (t : Table) (k i : ℕ) (r : HostRef)
    → get_elem? t k ≡ some (some r)
    → Found t k i
    → Found t (suc k) i
Found-suc t k i r e (inl (h, q, later)) = inl (omega arith, q, λ j hj hk. taken j hj hk)
  where
    taken : (j : ℕ) → i < j → j < suc k → get_elem? t j ≢ some none
    taken j hj hk = elim (eq_or_lt j k hk) [
      | inl same ↦ λ p. cc (sym e ∙ ap (get_elem? t) (sym same) ∙ p)
      | inr below ↦ later j hj below
    ]
Found-suc t k i r e (inr (q, none_free)) = inr (q, λ j hk. taken j hk)
  where
    taken : (j : ℕ) → j < suc k → get_elem? t j ≢ some none
    taken j hk = elim (eq_or_lt j k hk) [
      | inl same ↦ λ p. cc (sym e ∙ ap (get_elem? t) (sym same) ∙ p)
      | inr below ↦ none_free j below
    ]

Found-null : (t : Table) (k : ℕ) → get_elem? t k ≡ some none → Found t (suc k) k
Found-null t k e = inl (omega arith, e, λ j hj hk. absurd (omega arith))

Found-search_from : (t : Table) (i : ℕ) → i < length t → Found t (suc i) (search_from t i)
unfolding search_from
Found-search_from t zero h = elim (slot_cases t 0 h) [
  | inl e ↦ rw (search_from, e) (Found-null t 0 e)
  | inr (r, e) ↦
      rw (search_from, e) (Found-suc t 0 (length t) r e (inr (refl, λ j hj. elim hj [ ])))
]
Found-search_from t (suc i) h = elim (slot_cases t (suc i) h) [
  | inl e ↦ rw (search_from, e) (Found-null t (suc i) e)
  | inr (r, e) ↦
      rw (search_from, e) (Found-suc t (suc i) _ r e (Found-search_from t i (omega arith)))
]

Found-search_below : (t : Table) (k : ℕ) → k ≤ length t → Found t k (search_below t k)
unfolding search_below
Found-search_below t zero h = inr (refl, λ j hj. elim hj [ ])
Found-search_below t (suc i) h = Found-search_from t i h

-- The insertion takes the last null element, and only where there is none the end of the table.
pub free_index_cases : (t : Table) → Found t (length t) (free_index t)
free_index_cases t = Found-search_below t (length t) (omega arith)

pub free_index-le : (t : Table) → free_index t ≤ length t
free_index-le t = elim (free_index_cases t) [
  | inl (h, _, _) ↦ omega arith
  | inr (e, _) ↦ omega arith
]

-- Is there a null element at the index?
unfoldable pub null_at : Table → ℕ → Bool
null_at t j = elim (get_elem? t j) [ none ↦ false | some r ↦ is_null r ]

null_at-some : (t : Table) (j : ℕ) → get_elem? t j ≢ some none → null_at t j ≡ false
unfolding null_at
null_at-some t j h = elim (Option-cases (get_elem? t j)) [
  | inl e ↦ rw (null_at, e)
  | inr (none, e) ↦ absurd (h e)
  | inr (some r, e) ↦ rw (null_at, e)
]

null_at-end : (t : Table) (j : ℕ) → length t ≤ j → null_at t j ≡ false
unfolding null_at
null_at-end t j h = rw (null_at, get_elem?-none t j h)

and_false : (b : Bool) → (b && false) ≡ false
and_false true = refl
and_false false = refl

no_null :
    (t : Table) (j : ℕ) → ((j : ℕ) → j < length t → get_elem? t j ≢ some none) → null_at t j ≡ false
no_null t j later = elim (Bool-cases (ltb j (length t))) [
  | inl below ↦ null_at-some t j (later j (ltb→lt _ _ below))
  | inr above ↦ null_at-end t j (omega (arith, ltb→le j (length t) above))
]

no_later :
    (t : Table) (j i : ℕ)
    → ((j : ℕ) → i < j → j < length t → get_elem? t j ≢ some none)
    → (null_at t j && ltb i j) ≡ false
no_later t j i later = elim (Bool-cases (ltb i j)) [
  | inl behind ↦ elim (Bool-cases (ltb j (length t))) [
    | inl below ↦
        ap (λ b. b && ltb i j) (null_at-some t j (later j (ltb→lt _ _ behind) (ltb→lt _ _ below)))
    | inr above ↦
        ap (λ b. b && ltb i j) (null_at-end t j (omega (arith, ltb→le j (length t) above)))
  ]
  | inr before ↦ rw before (and_false (null_at t j))
]

-- The index that the insertion takes is null or the end of the table; no null element lies behind it, and
-- none lies anywhere if it is the end.
pub free_index_lem :
    (t : Table) (j : ℕ)
    → (free_index t ≤ length t)
      × (null_at t (free_index t) ≡ ltb (free_index t) (length t))
      × ((null_at t j && ltb (free_index t) j) ≡ false)
      × ((null_at t j && (free_index t == length t)) ≡ false)
unfolding null_at search_below
free_index_lem t j = elim (free_index_cases t) [
  | inl (lt, null, later) ↦ (
    omega arith,
    rw (null_at, null) (sym (lt→ltb _ _ lt)),
    no_later t j _ later,
    rw (ne→== (free_index t) (length t) (omega arith)) (and_false (null_at t j)),
  )
  | inr (end, later) ↦ (
    omega arith,
    rw end (null_at-end t (length t) (omega arith) ∙ sym (le→ltb _ _ (omega arith))),
    ap (λ b. b && ltb (free_index t) j) (no_null t j later),
    ap (λ b. b && (free_index t == length t)) (no_null t j later),
  )
]
