-- ===== src/Wasm/Steps.antt =====
-- What one instruction without a label does to the types of the operands and the locals.
use externref.Prelude.{
  ℕ, zero, suc, ◌+◌, ◌≡◌, refl, sym, ap, ap₂, ◌∙◌, Bool, true, false, ◌&&◌, ltb, List, [], ◌∷◌,
  Option, none, some, if◌then◌else◌, length, get_elem?, set,
}
use externref.Wasm.{
  Ref, Value, i32, ref, Machine, Exit, next, branch, returned, trap, stuck, exhausted, i32_mod,
  exec_get, exec_set, exec_binary, exec_is_null, fetch, exec_table_get, exec_table_set,
  exec_table_grow, exec_call, and_then,
}
use externref.Wasm.Typing.{Stack, type_of, types, is_label}
use externref.Processor.Ir.{ValType}

lookup_types :
    (vs : List Value) (x : ℕ) (ty : ValType)
    → get_elem? (types vs) x ≡ some ty
    → (v : Value) × (get_elem? vs x ≡ some v) × (type_of v ≡ ty)
lookup_types [] x ty h = cc
lookup_types (v ∷ vs) zero ty h = (v, refl, cc)
lookup_types (v ∷ vs) (suc x) ty h = lookup_types vs x ty h

types-set :
    (vs : List Value) (x : ℕ) (v : Value)
    → get_elem? (types vs) x ≡ some (type_of v)
    → types (set vs x v) ≡ types vs
types-set [] x v h = refl
types-set (u ∷ vs) zero v h = cc
types-set (u ∷ vs) (suc x) v h = ap (◌∷◌ (type_of u)) (types-set vs x v h)

module _ (Γ R : Stack) where
  abbrev pub Fits : Stack → Machine → Type 0
  Fits σ m = (types m.stack ≡ σ) × (types m.locals ≡ Γ)

  -- How code ends that leaves the operands `τ`, inside the labels `Λ`.
  abbrev pub Safe : List ℕ → Stack → Exit → Type 0
  Safe Λ τ (next m) = Fits τ m
  Safe Λ τ (branch k m) = (is_label Λ k ≡ true) × (types m.locals ≡ Γ)
  Safe Λ τ (returned m) = types m.stack ≡ R
  Safe Λ τ trap = Unit {0}
  Safe Λ τ stuck = ⊥
  Safe Λ τ exhausted = Unit {0}

  if-Safe :
      (Λ : List ℕ) (τ : Stack) (b : Bool) (yes_ no_ : Exit)
      → Safe Λ τ yes_
      → Safe Λ τ no_
      → Safe Λ τ (if b then yes_ else no_)
  if-Safe Λ τ true yes_ no_ s t = s
  if-Safe Λ τ false yes_ no_ s t = t

  pub and_then-Safe :
      (Λ : List ℕ) (μ τ : Stack) (e : Exit) (k : Machine → Exit)
      → Safe Λ μ e
      → ((m : Machine) → Fits μ m → Safe Λ τ (k m))
      → Safe Λ τ (and_then e k)
  unfolding and_then
  and_then-Safe Λ μ τ (next m) k s h = h m s
  and_then-Safe Λ μ τ (branch l m) k s h = s
  and_then-Safe Λ μ τ (returned m) k s h = s
  and_then-Safe Λ μ τ trap k s h = tt
  and_then-Safe Λ μ τ stuck k s h = s
  and_then-Safe Λ μ τ exhausted k s h = tt

  pub exec_get-Safe :
      (Λ : List ℕ) (σ : Stack) (x : ℕ) (ty : ValType) (m : Machine)
      → get_elem? Γ x ≡ some ty
      → Fits σ m
      → Safe Λ (ty ∷ σ) (exec_get (get_elem? m.locals x) m)
  unfolding exec_get
  exec_get-Safe Λ σ x ty m h (s, l) =
      let (v, e, t) = lookup_types m.locals x ty (ap (λ (vs : Stack). get_elem? vs x) l ∙ h) in
      rw e (ap₂ ◌∷◌ t s, l)

  pub exec_set-Safe :
      (Λ : List ℕ) (σ : Stack) (x : ℕ) (ty : ValType) (st : List Value) (m : Machine)
      → get_elem? Γ x ≡ some ty
      → types st ≡ ty ∷ σ
      → types m.locals ≡ Γ
      → Safe Λ σ (exec_set x st m)
  unfolding exec_set
  exec_set-Safe Λ σ x ty [] m h s l = cc
  exec_set-Safe Λ σ x ty (v ∷ st) m h s l =
      let t : type_of v ≡ ty = cc in
      (cc, types-set m.locals x v (ap (λ (vs : Stack). get_elem? vs x) l ∙ h ∙ ap some (sym t)) ∙ l)

  pub exec_binary-Safe :
      (Λ : List ℕ) (σ : Stack) (op : ℕ → ℕ → Value) (st : List Value) (m : Machine)
      → ((a b : ℕ) → type_of (op a b) ≡ ValType.i32)
      → types st ≡ ValType.i32 ∷ (ValType.i32 ∷ σ)
      → types m.locals ≡ Γ
      → Safe Λ (ValType.i32 ∷ σ) (exec_binary op st m)
  unfolding exec_binary
  exec_binary-Safe Λ σ op (i32 b ∷ (i32 a ∷ st)) m o s l = (ap₂ ◌∷◌ (o a b) cc, l)
  exec_binary-Safe Λ σ op _ m o s l = cc

  pub exec_is_null-Safe :
      (Λ : List ℕ) (σ : Stack) (st : List Value) (m : Machine)
      → types st ≡ ValType.extern_ref ∷ σ
      → types m.locals ≡ Γ
      → Safe Λ (ValType.i32 ∷ σ) (exec_is_null st m)
  unfolding exec_is_null
  exec_is_null-Safe Λ σ (ref r ∷ st) m s l = (cc, l)
  exec_is_null-Safe Λ σ _ m s l = cc

  fetch-Safe :
      (Λ : List ℕ) (σ : Stack) (o : Option Ref) (st : List Value) (m : Machine)
      → types st ≡ σ
      → types m.locals ≡ Γ
      → Safe Λ (ValType.extern_ref ∷ σ) (fetch o st m)
  unfolding fetch
  fetch-Safe Λ σ none st m s l = tt
  fetch-Safe Λ σ (some r) st m s l = (ap (◌∷◌ ValType.extern_ref) s, l)

  pub exec_table_get-Safe :
      (Λ : List ℕ) (σ : Stack) (st : List Value) (m : Machine)
      → types st ≡ ValType.i32 ∷ σ
      → types m.locals ≡ Γ
      → Safe Λ (ValType.extern_ref ∷ σ) (exec_table_get st m)
  unfolding exec_table_get
  exec_table_get-Safe Λ σ (i32 i ∷ st) m s l = fetch-Safe Λ σ (get_elem? m.table i) st m (cc) l
  exec_table_get-Safe Λ σ _ m s l = cc

  pub exec_table_set-Safe :
      (Λ : List ℕ) (σ : Stack) (st : List Value) (m : Machine)
      → types st ≡ ValType.extern_ref ∷ (ValType.i32 ∷ σ)
      → types m.locals ≡ Γ
      → Safe Λ σ (exec_table_set st m)
  unfolding exec_table_set
  exec_table_set-Safe Λ σ (ref r ∷ (i32 i ∷ st)) m s l =
      if-Safe Λ σ (ltb i (length m.table)) _ trap (cc, l) tt
  exec_table_set-Safe Λ σ _ m s l = cc

  pub exec_table_grow-Safe :
      (Λ : List ℕ) (σ : Stack) (grows : ℕ → Bool) (st : List Value) (m : Machine)
      → types st ≡ ValType.i32 ∷ (ValType.extern_ref ∷ σ)
      → types m.locals ≡ Γ
      → Safe Λ (ValType.i32 ∷ σ) (exec_table_grow grows st m)
  unfolding exec_table_grow
  exec_table_grow-Safe Λ σ grows (i32 n ∷ (ref r ∷ st)) m s l =
      if-Safe Λ (ValType.i32 ∷ σ) (grows (length m.table) && ltb (length m.table + n) i32_mod) _ _
        (cc, l) (cc, l)
  exec_table_grow-Safe Λ σ grows _ m s l = cc

  pub exec_call-Safe :
      (Λ : List ℕ) (σ : Stack) (f : ℕ) (st : List Value) (m : Machine)
      → types st ≡ ValType.extern_ref ∷ σ
      → types m.locals ≡ Γ
      → Safe Λ σ (exec_call f st m)
  unfolding exec_call
  exec_call-Safe Λ σ f (ref r ∷ st) m s l = (cc, l)
  exec_call-Safe Λ σ f _ m s l = cc
