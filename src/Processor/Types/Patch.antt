-- ===== src/Processor/Types/Patch.antt =====
-- What the patched signature is, and what happens where a slot is no `i32`.
use externref.Prelude.{
  ltb→le, ℕ, zero, suc, ◌-◌, ◌<◌, ◌≡◌, refl, sym, ap, ◌∙◌, Bool, true, false, ◌||◌, List, [], ◌∷◌,
  Option, some, ◌==◌, ltb, ltb→lt, if◌then◌else◌, ==_refl, ==→eq, Bool-cases, Option-cases, inl,
  inr, length, get_elem?, get_elem?-none, get_elem?-set_self, get_elem?-set_ne, length-set, set,
  Outcome, ok, err, fault, >>=-eq-ok, arith, ==_comm,
}
use externref.Signature.Types.{Function}
use externref.Signature.Bits.{set_indices}
use externref.Signature.Bits.Indices.{marked}
use externref.Processor.Ir.{ValType, extern_ref}
use externref.Processor.Error.{Error, unexpected_type, unexpected_arity, arg}
use externref.Processor.Types.{
  FuncType, fn_module, is_i32, placement, place, location_of, wrong_type, patch_slot, patch_slots,
  arity, patch_type_inner,
}

place-params :
    (t : FuncType) (idx : ℕ) (v : ValType) → length (place t idx v).params ≡ length t.params
unfolding place
place-params t idx v = elim (Bool-cases (ltb idx (length t.params))) [
  | inl e ↦ rw (place, e) (length-set t.params idx v)
  | inr e ↦ rw (place, e)
]

place-results :
    (t : FuncType) (idx : ℕ) (v : ValType) → length (place t idx v).results ≡ length t.results
unfolding place
place-results t idx v = elim (Bool-cases (ltb idx (length t.params))) [
  | inl e ↦ rw (place, e)
  | inr e ↦ rw (place, e) (length-set t.results (idx - length t.params) v)
]

some_lt {ℓ} : {A : Type ℓ} (xs : List A) (i : ℕ) (a : A) → get_elem? xs i ≡ some a → i < length xs
some_lt [] i a e = cc
some_lt (x ∷ xs) zero a e = omega arith
some_lt (x ∷ xs) (suc i) a e = omega (arith, some_lt xs i a e)

get_elem?-set {ℓ} :
    {A : Type ℓ} (xs : List A) (i j : ℕ) (v : A)
    → i < length xs
    → get_elem? (set xs i v) j ≡ (if j == i then some v else get_elem? xs j)
get_elem?-set xs i j v h = elim (Bool-cases (j == i)) [
  | inl same ↦ rw (same, ==→eq j i same) (get_elem?-set_self xs i v h)
  | inr other ↦
      rw other (get_elem?-set_ne xs i j v λ e. cc (other, ap (λ (k : ℕ). j == k) e, ==_refl j))
]

ne_below : (i j n : ℕ) → ltb i n ≡ true → ltb j n ≡ false → (j == i) ≡ false
ne_below i j n h k = ground arith

ne_above : (i j n : ℕ) → ltb i n ≡ false → ltb j n ≡ true → (j == i) ≡ false
ne_above i j n h k = ground arith

same_offset : (i j n : ℕ) → ltb i n ≡ false → ltb j n ≡ false → (j - n == i - n) ≡ (j == i)
same_offset i j n h k = ground arith

module _ (t : FuncType) (idx j : ℕ) (old v : ValType) (h : placement t idx ≡ some old) where
  placement-place_below :
      ltb idx (length t.params) ≡ true
      → placement (place t idx v) j ≡ (if j == idx then some v else placement t j)
  unfolding placement place
  placement-place_below below = elim (Bool-cases (ltb j (length t.params))) [
    | inl param ↦
        rw (place, below, placement, length-set t.params idx v, param)
          (get_elem?-set t.params idx j v (ltb→lt idx _ below))
    | inr result ↦
        rw (
          place,
          below,
          placement,
          length-set t.params idx v,
          result,
          ne_below idx j _ below result,
        )
  ]

  placement-place_above :
      ltb idx (length t.params) ≡ false
      → placement (place t idx v) j ≡ (if j == idx then some v else placement t j)
  unfolding placement place
  placement-place_above above = elim (Bool-cases (ltb j (length t.params))) [
    | inl param ↦ rw (place, above, placement, param, ne_above idx j _ above param)
    | inr result ↦
        rw (place, above, placement, result)
          (get_elem?-set t.results (idx - length t.params) (j - length t.params) v
              (some_lt t.results _ old (rw (placement, above) at h))
            ∙ ap (λ (b : Bool). if b then some v else get_elem? t.results (j - length t.params))
                (same_offset idx j _ above result))
  ]

-- Writing one slot changes that slot alone.
pub placement-place :
    (t : FuncType) (idx j : ℕ) (old v : ValType)
    → placement t idx ≡ some old
    → placement (place t idx v) j ≡ (if j == idx then some v else placement t j)
placement-place t idx j old v h = elim (Bool-cases (ltb idx (length t.params))) [
  | inl below ↦ placement-place_below t idx j old v h below
  | inr above ↦ placement-place_above t idx j old v h above
]

refusal :
    (f : Function) (idx : ℕ) (t : FuncType) (ty : ValType)
    → placement t idx ≡ some ty
    → wrong_type f t idx ≡ (
        if ltb idx (length t.params)
        then err (unexpected_type (fn_module f.kind) f.name (arg idx) ty)
        else fault)
unfolding wrong_type location_of placement
refusal f idx t ty h = elim (Bool-cases (ltb idx (length t.params))) [
  | inl below ↦
      let slot : get_elem? t.params idx ≡ some ty = rw (placement, below) at h in
      rw (wrong_type, slot, below)
  | inr above ↦
      rw (wrong_type, get_elem?-none t.params idx (omega (arith, ltb→le idx _ above)), above)
]

-- One round of the loop, for a slot that the signature has. A slot of type `i32` becomes an `externref`. A
-- parameter of any other type is reported as an error with its index and type. A result of any other type panics: the
-- code reads the type for its error from the parameters.
pub patch_slot_cases :
    (f : Function) (idx : ℕ) (t : FuncType) (ty : ValType)
    → placement t idx ≡ some ty
    → patch_slot f idx t ≡ (
        if is_i32 ty
        then ok (place t idx extern_ref)
        else if ltb idx (length t.params)
        then err (unexpected_type (fn_module f.kind) f.name (arg idx) ty)
        else fault)
unfolding patch_slot location_of
patch_slot_cases f idx t ty h =
    rw (patch_slot, h)
      (ap (λ (r : Outcome Error FuncType). if is_i32 ty then ok (place t idx extern_ref) else r)
        (refusal f idx t ty h))

patch_slot-ok :
    (f : Function) (idx : ℕ) (t t' : FuncType)
    → patch_slot f idx t ≡ ok t'
    → (t' ≡ place t idx extern_ref)
      × (ty : ValType) × (placement t idx ≡ some ty)
      × (is_i32 ty ≡ true)
unfolding patch_slot
patch_slot-ok f idx t t' e = elim (Option-cases (placement t idx)) [
  | inl out ↦ let e' : fault ≡ ok t' = rw (patch_slot, out) at e in cc
  | inr (ty, h) ↦ of_type ty h (sym (patch_slot_cases f idx t ty h) ∙ e)
]
  where
    of_type :
        (ty : ValType)
        → placement t idx ≡ some ty
        → (if is_i32 ty
            then ok (place t idx extern_ref)
            else if ltb idx (length t.params)
            then err (unexpected_type (fn_module f.kind) f.name (arg idx) ty)
            else fault)
          ≡ ok t'
        → (t' ≡ place t idx extern_ref)
          × (ty : ValType) × (placement t idx ≡ some ty)
          × (is_i32 ty ≡ true)
    of_type ty h q = elim (Bool-cases (is_i32 ty)) [
      | inl int ↦
          let q' : ◌≡◌ {A = Outcome Error FuncType} (ok (place t idx extern_ref)) (ok t') =
            rw int at q in
          (cc, ty, h, int)
      | inr differs ↦ absurd (no_ok (ltb idx (length t.params)) (rw differs at q))
    ]
      where
        no_ok :
            (b : Bool)
            → ◌≡◌ {A = Outcome Error FuncType}
                (if b then err (unexpected_type (fn_module f.kind) f.name (arg idx) ty) else fault)
                (ok t')
            → ⊥
        no_ok true q = cc
        no_ok false q = cc

swap_or {ℓ} :
    {A : Type ℓ} (a a' b : Bool)
    → a ≡ a'
    → (x y : A) → (if b then x else (if a then x else y)) ≡ (if a' || b then x else y)
swap_or true true true h x y = refl
swap_or true true false h x y = refl
swap_or false false true h x y = refl
swap_or false false false h x y = refl
swap_or true false b h x y = cc
swap_or false true b h x y = cc

pub record Patched (t : FuncType) (is : List ℕ) (t' : FuncType) : Type 0 where
  pub slots : (j : ℕ) → placement t' j ≡ (if marked is j then some extern_ref else placement t j)
  pub params_len : length t'.params ≡ length t.params
  pub results_len : length t'.results ≡ length t.results

patch_slots-Patched :
    (f : Function) (is : List ℕ) (t t' : FuncType) → patch_slots f is t ≡ ok t' → Patched t is t'
unfolding patch_slots marked
patch_slots-Patched f [] t t' e =
    let same : t ≡ t' = cc in
    record {
      slots = λ j. ap (λ (u : FuncType). placement u j) (sym same);
      params_len = ap (λ (u : FuncType). length u.params) (sym same);
      results_len = ap (λ (u : FuncType). length u.results) (sym same);
    }
patch_slots-Patched f (idx ∷ is) t t' e =
    let (u, e₁, e₂) = >>=-eq-ok (patch_slot f idx t) (patch_slots f is) e in
    let (at, ty, slot, _) = patch_slot-ok f idx t u e₁ in
    let rest = patch_slots-Patched f is u t' e₂ in
    record {
      slots = λ j.
          rest.slots j
          ∙ ap (λ (o : Option ValType). if marked is j then some extern_ref else o)
              (ap (λ (w : FuncType). placement w j) at ∙ placement-place t idx j ty extern_ref slot)
          ∙ swap_or (j == idx) (idx == j) (marked is j) (==_comm j idx) (some extern_ref)
              (placement t j);
      params_len =
          rest.params_len
          ∙ ap (λ (w : FuncType). length w.params) at
          ∙ place-params t idx extern_ref;
      results_len =
          rest.results_len
          ∙ ap (λ (w : FuncType). length w.results) at
          ∙ place-results t idx extern_ref;
    }

-- If the declaration's slots can be listed, then a signature that is patched has the arity that the section
-- declares, and differs from the old one in the marked slots alone, which are of type `externref`.
pub patch_type_inner-Patched :
    (f : Function) (is : List ℕ) (t t' : FuncType)
    → set_indices f.externrefs ≡ ok is
    → patch_type_inner f t ≡ ok t'
    → (arity t ≡ f.externrefs.bit_len) × Patched t is t'
unfolding patch_type_inner
patch_type_inner-Patched f is t t' h e = elim (Bool-cases (arity t == f.externrefs.bit_len)) [
  | inl same ↦ (==→eq _ _ same, patch_slots-Patched f is t t' (rw (patch_type_inner, same, h) at e))
  | inr differs ↦
      let e' : ◌≡◌ {A = Outcome Error FuncType}
          (err (unexpected_arity (fn_module f.kind) f.name f.externrefs.bit_len (arity t)))
          (ok t') =
        rw (patch_type_inner, differs) at e in
      cc
]
