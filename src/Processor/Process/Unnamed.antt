-- ===== src/Processor/Process/Unnamed.antt =====
-- What `replace_calls` leaves, in the terms of Names.
use externref.Prelude.{
  ℕ, ◌+◌, ◌≡◌, refl, sym, ap, ◌∙◌, Bool, false, ◌||◌, [], ◌∷◌, Option, none, some, if◌then◌else◌,
  arith, ==_comm, false_or, or_both,
}
use externref.Processor.Ir.{Instr, call, ref_func, Instrs, Body, FunctionId}
use externref.Processor.Guards.{is_call_to}
use externref.Processor.Guards.Placement.{has_guard, body_has_guard}
use externref.Processor.Calls.{FnMapping}
use externref.Processor.Calls.Replaced.{is_key, uses_old, count_old, count_old_body}
use externref.Processor.Module.{Funcs, imported_fn, local_fn}
use externref.Processor.Module.Replaced.{old_calls, guarded_by, has_guards}
use externref.Processor.Process.Names.{names, seq_names, body_names}
use externref.Processor.Process.Kept.{funcs_names}
use externref.Processor.Process.Keys.{is_import}

no_old : (b : Bool) (n : ℕ) → (if b then 1 else 0) + n ≡ 0 → (b ≡ false) × (n ≡ 0)
no_old b n h = ground arith

no_sum : (a b : ℕ) → a + b ≡ 0 → (a ≡ 0) × (b ≡ 0)
no_sum a b h = (omega (arith, h), omega (arith, h))

module _ (m : FnMapping) (guard : Option FunctionId) where
  abbrev pub old_or_guard : FunctionId → Bool
  old_or_guard f = is_key m f || is_import guard f

  abbrev seq_guarded : Option FunctionId → Instrs → Bool
  seq_guarded none is = false
  seq_guarded (some g) is = has_guard g is

  seq_guarded-cons :
      (o : Option FunctionId) (i : Instr) (loc : externref.Processor.Ir.InstrLocId) (is : Instrs)
      → seq_guarded o ((i, loc) ∷ is) ≡ false
      → ((f : FunctionId) → i ≡ call f → is_import o f ≡ false) × (seq_guarded o is ≡ false)
  unfolding has_guard is_call_to
  seq_guarded-cons none i loc is h = (λ f e. refl, refl)
  seq_guarded-cons (some g) i loc is h =
      let (one, rest) = or_both (is_call_to g i) (has_guard g is) h in
      (λ f e. ==_comm g f ∙ sym (ap (is_call_to g) e) ∙ one, rest)

  names-none :
      (i : Instr)
      → uses_old m i ≡ false
      → ((f : FunctionId) → i ≡ call f → is_import guard f ≡ false)
      → names old_or_guard (is_key m) i ≡ false
  unfolding names uses_old
  names-none (call f) h k = false_or _ _ h (k f refl)
  names-none (ref_func f) h k = h
  names-none _ h k = refl

  seq_names-none :
      (is : Instrs)
      → count_old m is ≡ 0
      → seq_guarded guard is ≡ false
      → seq_names old_or_guard (is_key m) is ≡ false
  unfolding seq_names count_old
  seq_names-none [] h k = refl
  seq_names-none ((i, loc) ∷ is) h k =
      let (old, olds) = no_old (uses_old m i) (count_old m is) h in
      let (g, gs) = seq_guarded-cons guard i loc is k in
      false_or _ _ (names-none i old g) (seq_names-none is olds gs)

  guarded_by-cons :
      (o : Option FunctionId) (seq : externref.Processor.Ir.InstrSeq) (body : Body)
      → guarded_by o (seq ∷ body) ≡ false
      → (seq_guarded o seq.instrs ≡ false) × (guarded_by o body ≡ false)
  unfolding body_has_guard
  guarded_by-cons none seq body h = (refl, refl)
  guarded_by-cons (some g) seq body h = or_both (has_guard g seq.instrs) (body_has_guard g body) h

  body_names-none :
      (body : Body)
      → count_old_body m body ≡ 0
      → guarded_by guard body ≡ false
      → body_names old_or_guard (is_key m) body ≡ false
  unfolding body_names count_old_body
  body_names-none [] h k = refl
  body_names-none (seq ∷ body) h k =
      let (one, rest) = no_sum _ _ h in
      let (g, gs) = guarded_by-cons guard seq body k in
      false_or _ _ (seq_names-none seq.instrs one g) (body_names-none body rest gs)

  pub funcs_names-none :
      (funcs : Funcs)
      → old_calls m funcs ≡ 0
      → has_guards guard funcs ≡ false
      → funcs_names old_or_guard (is_key m) funcs ≡ false
  unfolding funcs_names old_calls has_guards
  funcs_names-none [] h k = refl
  funcs_names-none ((f, imported_fn t) ∷ funcs) h k = funcs_names-none funcs h k
  funcs_names-none ((f, local_fn self) ∷ funcs) h k =
      let (one, rest) = no_sum _ _ h in
      let (g, gs) = or_both (guarded_by guard self.body) (has_guards guard funcs) k in
      false_or _ _ (body_names-none self.body one g) (funcs_names-none funcs rest gs)
