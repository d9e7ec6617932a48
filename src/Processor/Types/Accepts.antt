-- ===== src/Processor/Types/Accepts.antt =====
-- When a signature is patched without an error.
use externref.Prelude.{
  ℕ, zero, suc, ◌+◌, ◌≤◌, ◌<◌, ◌≡◌, refl, sym, ap, ◌∙◌, Bool, true, false, List, [], ◌∷◌, some,
  ◌==◌, ==_refl, ==→eq, Bool-cases, inl, inr, ne→==, All, ok, arith,
}
use externref.Signature.Types.{Function}
use externref.Signature.Bits.{set_indices}
use externref.Signature.Bits.Indices.{select, marked}
use externref.Processor.Ir.{i32, extern_ref}
use externref.Processor.Types.{
  FuncType, is_i32, placement, place, patch_slots, arity, patch_type_inner,
}
use externref.Processor.Types.Patch.{
  placement-place, patch_slot_cases, Patched, patch_type_inner-Patched,
}

-- Each index stands once, in increasing order.
abbrev Increasing : List ℕ → Type 0
Increasing [] = Unit
Increasing (i ∷ is) = All (λ j. i < j) is × Increasing is

abbrev AreI32 : FuncType → List ℕ → Type 0
AreI32 t = All (λ i. placement t i ≡ some i32)

AreI32-place :
    (t : FuncType) (idx : ℕ) (is : List ℕ)
    → placement t idx ≡ some i32
    → All (λ j. idx < j) is
    → AreI32 t is
    → AreI32 (place t idx extern_ref) is
AreI32-place t idx [] h apart all = tt
AreI32-place t idx (j ∷ is) h (less, apart) (one, all) = (
  placement-place t idx j i32 extern_ref h ∙ rw (ne→== j idx (omega arith)) one,
  AreI32-place t idx is h apart all,
)

patch_slots-AreI32 :
    (f : Function) (is : List ℕ) (t : FuncType)
    → Increasing is
    → AreI32 t is
    → (t' : FuncType) × (patch_slots f is t ≡ ok t')
unfolding patch_slots is_i32
patch_slots-AreI32 f [] t inc all = (t, refl)
patch_slots-AreI32 f (idx ∷ is) t (apart, inc) (one, all) =
    let (t', done) =
      patch_slots-AreI32 f is (place t idx extern_ref) inc (AreI32-place t idx is one apart all) in
    (t', rw (patch_slot_cases f idx t i32 one) done)

select-ge : (p : ℕ → Bool) (lo n k : ℕ) → k < lo → All (λ j. k < j) (select p lo n)
unfolding select
select-ge p lo zero k h = tt
select-ge p lo (suc n) k h = elim (Bool-cases (p lo)) [
  | inl yes_ ↦ rw yes_ (h, select-ge p (lo + 1) n k (omega arith))
  | inr no_ ↦ rw no_ (select-ge p (lo + 1) n k (omega arith))
]

select-Increasing : (p : ℕ → Bool) (lo n : ℕ) → Increasing (select p lo n)
unfolding select
select-Increasing p lo zero = tt
select-Increasing p lo (suc n) = elim (Bool-cases (p lo)) [
  | inl yes_ ↦ rw yes_ (select-ge p (lo + 1) n lo (omega arith), select-Increasing p (lo + 1) n)
  | inr no_ ↦ rw no_ (select-Increasing p (lo + 1) n)
]

select-AreI32 :
    (p : ℕ → Bool) (lo n : ℕ) (t : FuncType)
    → ((j : ℕ) → p j ≡ true → placement t j ≡ some i32)
    → AreI32 t (select p lo n)
unfolding select
select-AreI32 p lo zero t h = tt
select-AreI32 p lo (suc n) t h = elim (Bool-cases (p lo)) [
  | inl yes_ ↦ rw yes_ (h lo yes_, select-AreI32 p (lo + 1) n t h)
  | inr no_ ↦ rw no_ (select-AreI32 p (lo + 1) n t h)
]

-- The selected numbers of a range are those that pass.
marked-select_below : (p : ℕ → Bool) (lo n j : ℕ) → j < lo → marked (select p lo n) j ≡ false
unfolding select marked
marked-select_below p lo zero j h = refl
marked-select_below p lo (suc n) j h = elim (Bool-cases (p lo)) [
  | inl yes_ ↦
      rw (yes_, ne→== lo j (omega arith)) (marked-select_below p (lo + 1) n j (omega arith))
  | inr no_ ↦ rw no_ (marked-select_below p (lo + 1) n j (omega arith))
]

lt_of_ne : (a b : ℕ) → a ≤ b → (a == b) ≡ false → a + 1 ≤ b
lt_of_ne a b h e = ground arith

pub marked-select :
    (p : ℕ → Bool) (lo n j : ℕ)
    → lo ≤ j
    → (p j ≡ true → j < lo + n)
    → marked (select p lo n) j ≡ p j
unfolding select marked
marked-select p lo zero j h inside = elim (Bool-cases (p j)) [
  | inl yes_ ↦ absurd (omega (arith, inside yes_))
  | inr no_ ↦ sym no_
]
marked-select p lo (suc n) j h inside = elim (Bool-cases (lo == j)) [
  | inl same ↦
      let e : lo ≡ j = ==→eq lo j same in
      elim (Bool-cases (p lo)) [
        | inl yes_ ↦ rw (yes_, same) (sym yes_ ∙ ap p e)
        | inr no_ ↦
            rw no_ (marked-select_below p (lo + 1) n j (omega (arith, e)) ∙ sym no_ ∙ ap p e)
      ]
  | inr other ↦
      let more : lo + 1 ≤ j = lt_of_ne lo j h other in
      let rest = marked-select p (lo + 1) n j more (λ q. omega (arith, inside q)) in
      elim (Bool-cases (p lo)) [ inl yes_ ↦ rw (yes_, other) rest | inr no_ ↦ rw no_ rest ]
]

after_slots :
    (f : Function) (is : List ℕ) (t t' : FuncType)
    → arity t ≡ f.externrefs.bit_len
    → set_indices f.externrefs ≡ ok is
    → patch_slots f is t ≡ ok t'
    → patch_type_inner f t ≡ ok t'
unfolding patch_type_inner
after_slots f is t t' same shown done =
    rw (patch_type_inner, same, ==_refl f.externrefs.bit_len, shown) done

-- A signature whose arity is the one that the declaration gives, and whose marked slots are of type `i32`, is
-- patched without an error and without a panic.
pub patch_type_inner-select :
    (f : Function) (p : ℕ → Bool) (t : FuncType)
    → arity t ≡ f.externrefs.bit_len
    → set_indices f.externrefs ≡ ok (select p 0 (arity t))
    → ((j : ℕ) → p j ≡ true → placement t j ≡ some i32)
    → (t' : FuncType) × (patch_type_inner f t ≡ ok t') × Patched t (select p 0 (arity t)) t'
unfolding patch_type_inner
patch_type_inner-select f p t same shown all =
    let (t', done) =
      patch_slots-AreI32 f (select p 0 (arity t)) t (select-Increasing p 0 (arity t))
        (select-AreI32 p 0 (arity t) t all) in
    let patched : patch_type_inner f t ≡ ok t' =
      after_slots f (select p 0 (arity t)) t t' same shown done in
    (t', patched, (patch_type_inner-Patched f _ t t' shown patched).1)
