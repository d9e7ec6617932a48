-- ===== src/Wasm/Safety.antt =====
-- How a run of code that validates may end.
use externref.Prelude.{
  ℕ, zero, suc, ◌≡◌, refl, sym, ap, ap₂, ◌∙◌, Bool, true, false, ◌||◌, List, [], ◌∷◌, ◌++◌,
  append_assoc, append-nil, ◌==◌, if◌then◌else◌, replicate,
}
use mathlib.Core.List.{map-append}
use externref.Wasm.{
  Code, Table, Value, i32, Machine, Exit, next, branch, returned, trap, stuck, exhausted, Answer,
  answer, trapped, invalid, out_of_rounds, results_of, answer_of, exec, leave, repeat, and_then,
  choose, invoke,
}
use externref.Wasm.Typing.{Stack, type_of, types, is_label, Typed, Validates}
use externref.Processor.Ir.{ValType}
use externref.Processor.Types.{FuncType}
use externref.Wasm.Steps.{
  Fits, Safe, and_then-Safe, exec_get-Safe, exec_set-Safe, exec_binary-Safe, exec_is_null-Safe,
  exec_table_get-Safe, exec_table_set-Safe, exec_table_grow-Safe, exec_call-Safe,
}

-- What a call of a function leaves when the function has the results `R`.
abbrev pub Answers : Stack → Answer → Type 0
Answers R (answer vs t calls) = types vs ≡ R
Answers R trapped = Unit {0}
Answers R invalid = ⊥
Answers R out_of_rounds = Unit {0}

module _ (Γ R : Stack) where
  branch-Safe :
      (Λ : List ℕ) (τ : Stack) (k : ℕ) (m : Machine) (here : Exit) (b : Bool)
      → (b || is_label Λ k) ≡ true
      → types m.locals ≡ Γ
      → Safe Γ R Λ τ here
      → Safe Γ R Λ τ (if b then here else branch k m)
  branch-Safe Λ τ k m here true h l s = s
  branch-Safe Λ τ k m here false h l s = (h, l)

  leave-Safe :
      (Λ : List ℕ) (σ : Stack) (l : ℕ) (st : List Value) (e : Exit)
      → types st ≡ σ
      → Safe Γ R (l ∷ Λ) σ e
      → Safe Γ R Λ σ (leave l st e)
  unfolding leave is_label
  leave-Safe Λ σ l st (next m) s h = h
  leave-Safe Λ σ l st (branch k m) s (h, ls) =
      branch-Safe Λ σ k m (next (record m { stack = st })) (k == l) h ls (s, ls)
  leave-Safe Λ σ l st (returned m) s h = h
  leave-Safe Λ σ l st trap s h = tt
  leave-Safe Λ σ l st stuck s h = h
  leave-Safe Λ σ l st exhausted s h = tt

  choose-Safe :
      (Λ : List ℕ) (σ τ : Stack) (st : List Value) (yes_ no_ : Machine → Exit) (m : Machine)
      → types st ≡ ValType.i32 ∷ σ
      → types m.locals ≡ Γ
      → ((m' : Machine) → Fits Γ R σ m' → Safe Γ R Λ τ (yes_ m'))
      → ((m' : Machine) → Fits Γ R σ m' → Safe Γ R Λ τ (no_ m'))
      → Safe Γ R Λ τ (choose st yes_ no_ m)
  unfolding choose
  choose-Safe Λ σ τ (i32 c ∷ st) yes_ no_ m s l y n =
      elim (c == 0)
        as (λ b. Safe Γ R Λ τ (elim b [
          | true ↦ no_ (record m { stack = st })
          | false ↦ yes_ (record m { stack = st })
        ])) [
          | true ↦ n (record m { stack = st }) (cc, l)
          | false ↦ y (record m { stack = st }) (cc, l)
        ]
  choose-Safe Λ σ τ _ yes_ no_ m s l y n = cc

  -- A loop goes on by its label.
  jump-Safe :
      (Λ : List ℕ) (σ : Stack) (again : Machine → Exit) (st : List Value) (k : ℕ) (m : Machine)
      (b : Bool)
      → (b || is_label Λ k) ≡ true
      → types m.locals ≡ Γ
      → Safe Γ R Λ σ (again (record m { stack = st }))
      → Safe Γ R Λ σ (elim b [ true ↦ again (record m { stack = st }) | false ↦ branch k m ])
  jump-Safe Λ σ again st k m true h l s = s
  jump-Safe Λ σ again st k m false h l s = (h, l)

  round-Safe :
      (Λ : List ℕ) (σ : Stack) (l : ℕ) (again : Machine → Exit) (st : List Value) (e : Exit)
      → types st ≡ σ
      → ((m : Machine) → Fits Γ R σ m → Safe Γ R Λ σ (again m))
      → Safe Γ R (l ∷ Λ) σ e
      → Safe Γ R Λ σ (elim e [
        | branch k m ↦ elim (k == l) [ true ↦ again (record m { stack = st }) | false ↦ branch k m ]
        | next m ↦ next m
        | returned m ↦ returned m
        | trap ↦ trap
        | stuck ↦ stuck
        | exhausted ↦ exhausted
      ])
  unfolding is_label
  round-Safe Λ σ l again st (next m) s h t = t
  round-Safe Λ σ l again st (branch k m) s h (e, ls) =
      jump-Safe Λ σ again st k m (k == l) e ls (h (record m { stack = st }) (s, ls))
  round-Safe Λ σ l again st (returned m) s h t = t
  round-Safe Λ σ l again st trap s h t = tt
  round-Safe Λ σ l again st stuck s h t = t
  round-Safe Λ σ l again st exhausted s h t = tt

  repeat-Safe :
      (Λ : List ℕ) (σ : Stack) (rounds l : ℕ) (st : List Value) (body : Machine → Exit)
      → types st ≡ σ
      → ((m : Machine) → Fits Γ R σ m → Safe Γ R (l ∷ Λ) σ (body m))
      → (m : Machine) → Fits Γ R σ m
      → Safe Γ R Λ σ (repeat rounds l st body m)
  unfolding repeat
  repeat-Safe Λ σ zero l st body s h m f = tt
  repeat-Safe Λ σ (suc rounds) l st body s h m f =
      round-Safe Λ σ l (repeat rounds l st body) st (body m) s
        (repeat-Safe Λ σ rounds l st body s h) (h m f)

  -- By induction on the derivation.
  pub exec-Safe :
      (grows : ℕ → Bool) (rounds : ℕ) {Λ : List ℕ} {β σ τ : Stack} {code : Code}
      → Typed Γ R Λ β σ code τ
      → (m : Machine) → Fits Γ R (σ ++ β) m
      → Safe Γ R Λ (τ ++ β) (exec grows rounds code m)
  unfolding exec and_then
  exec-Safe grows rounds Typed.nop m f = f
  exec-Safe grows rounds {Λ} {β} {σ} (Typed.local_get {x = x} {ty = ty} h d) m f =
      and_then-Safe Γ R Λ _ _ _ _ (exec_get-Safe Γ R Λ _ x ty m h f) (exec-Safe grows rounds d)
  exec-Safe grows rounds {Λ} (Typed.local_set {x = x} {ty = ty} h d) m (s, l) =
      and_then-Safe Γ R Λ _ _ _ _ (exec_set-Safe Γ R Λ _ x ty m.stack m h s l)
        (exec-Safe grows rounds d)
  exec-Safe grows rounds (Typed.i32_const d) m (s, l) =
      exec-Safe grows rounds d _ (ap (◌∷◌ ValType.i32) s, l)
  exec-Safe grows rounds {Λ} (Typed.i32_sub d) m (s, l) =
      and_then-Safe Γ R Λ _ _ _ _ (exec_binary-Safe Γ R Λ _ _ m.stack m (λ a b. refl) s l)
        (exec-Safe grows rounds d)
  exec-Safe grows rounds {Λ} (Typed.i32_eq d) m (s, l) =
      and_then-Safe Γ R Λ _ _ _ _ (exec_binary-Safe Γ R Λ _ _ m.stack m (λ a b. refl) s l)
        (exec-Safe grows rounds d)
  exec-Safe grows rounds (Typed.ref_null d) m (s, l) =
      exec-Safe grows rounds d _ (ap (◌∷◌ ValType.extern_ref) s, l)
  exec-Safe grows rounds {Λ} (Typed.ref_is_null d) m (s, l) =
      and_then-Safe Γ R Λ _ _ _ _ (exec_is_null-Safe Γ R Λ _ m.stack m s l)
        (exec-Safe grows rounds d)
  exec-Safe grows rounds (Typed.table_size d) m (s, l) =
      exec-Safe grows rounds d _ (ap (◌∷◌ ValType.i32) s, l)
  exec-Safe grows rounds {Λ} (Typed.table_get d) m (s, l) =
      and_then-Safe Γ R Λ _ _ _ _ (exec_table_get-Safe Γ R Λ _ m.stack m s l)
        (exec-Safe grows rounds d)
  exec-Safe grows rounds {Λ} (Typed.table_set d) m (s, l) =
      and_then-Safe Γ R Λ _ _ _ _ (exec_table_set-Safe Γ R Λ _ m.stack m s l)
        (exec-Safe grows rounds d)
  exec-Safe grows rounds {Λ} (Typed.table_grow d) m (s, l) =
      and_then-Safe Γ R Λ _ _ _ _ (exec_table_grow-Safe Γ R Λ _ grows m.stack m s l)
        (exec-Safe grows rounds d)
  exec-Safe grows rounds {Λ} (Typed.call {f = f} d) m (s, l) =
      and_then-Safe Γ R Λ _ _ _ _ (exec_call-Safe Γ R Λ _ f m.stack m s l)
        (exec-Safe grows rounds d)
  exec-Safe grows rounds (Typed.br h) m (s, l) = (h, l)
  exec-Safe grows rounds Typed.return_ m (s, l) = s ∙ append-nil R
  exec-Safe grows rounds Typed.unreachable m f = tt
  exec-Safe grows rounds {Λ} {β} {σ} (Typed.block {l = l} {body = body} d d') m (s, ls) =
      and_then-Safe Γ R Λ (σ ++ β) _ _ _
        (leave-Safe Λ (σ ++ β) l m.stack _ s (exec-Safe grows rounds d m (s, ls)))
        (exec-Safe grows rounds d')
  exec-Safe grows rounds {Λ} {β} {σ} (Typed.loop {l = l} {body = body} d d') m f =
      and_then-Safe Γ R Λ (σ ++ β) _ _ _
        (repeat-Safe Λ (σ ++ β) rounds l m.stack _ (f.0) (exec-Safe grows rounds d) m f)
        (exec-Safe grows rounds d')
  exec-Safe grows rounds {Λ} {β} (Typed.if_else {σ = σ} {ty = ty} d₁ d₂ d) m (s, l) =
      and_then-Safe Γ R Λ (results_of ty ++ (σ ++ β)) _ _ _
        (choose-Safe Λ (σ ++ β) (results_of ty ++ (σ ++ β)) m.stack _ _ m s l
          (exec-Safe grows rounds d₁) (exec-Safe grows rounds d₂))
        (λ m' f. exec-Safe grows rounds d m' (f.0 ∙ sym (append_assoc (results_of ty) σ β), f.1))

answer_of-Answers : (Γ R : Stack) (e : Exit) → Safe Γ R [] (R ++ []) e → Answers R (answer_of e)
unfolding is_label
answer_of-Answers Γ R (next m) (s, l) = s ∙ append-nil R
answer_of-Answers Γ R (branch k m) (h, l) = cc
answer_of-Answers Γ R (returned m) h = h
answer_of-Answers Γ R trap h = tt
answer_of-Answers Γ R stuck h = h
answer_of-Answers Γ R exhausted h = tt

types-replicate : (n : ℕ) → types (replicate n (i32 0)) ≡ replicate n ValType.i32
types-replicate zero = refl
types-replicate (suc n) = ap (◌∷◌ ValType.i32) (types-replicate n)

-- A call of a function that validates, on arguments of its types, is valid, and answers with its results.
pub invoke-Answers :
    (grows : ℕ → Bool) (rounds : ℕ) (t : FuncType) (zeros : ℕ) (code : Code) (args : List Value)
    (table : Table)
    → Validates t (replicate zeros ValType.i32) code
    → types args ≡ t.params
    → Answers t.results (invoke grows rounds code zeros args table)
unfolding invoke
invoke-Answers grows rounds t zeros code args table d h =
    answer_of-Answers (t.params ++ replicate zeros ValType.i32) t.results _ (
      exec-Safe _ _ grows rounds d _
        (refl, map-append type_of args _ ∙ ap₂ ◌++◌ h (types-replicate zeros)))
