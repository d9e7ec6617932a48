-- ===== src/Processor/Process/Names.antt =====
-- The functions that instructions name: the passes behind `replace_calls` give a function no new names.
use externref.Prelude.{
  ◌≡◌, refl, sym, ap, ap₂, ◌∙◌, Bool, true, false, ◌||◌, List, [], ◌∷◌, Option, none, some, ◌==◌,
  Bool-cases, inl, inr, Outcome, ok, ◌>>=◌, or_fault, >>=-eq-ok, ok-inj, or_both,
}
use externref.Processor.Ir.{
  Instr, call, ref_func, local_get, local_set, local_tee, block, loop, br, br_if, if_else, br_table,
  Instrs, Body, SeqId, FunctionId,
}
use externref.Processor.Error.{Error}
use externref.Processor.Locals.{
  Detected, detect_instr, detect_instrs, detect_body, Replacements, take_replacement,
}
use externref.Processor.Locals.Transform.{replace_seq, replace_local_gets}
use externref.Processor.Cloner.{
  SequenceMapping, renamed, renamed_all, clone_instrs, block_mut, clone_function,
}
use externref.Processor.Cloner.Renamed.{rename_instr, rename_instrs, clone_instrs-replace_seq}

-- `calls` and `refs` say which functions a call and a `ref.func` must not name.
module _ (calls refs : FunctionId → Bool) where
  unfoldable pub names : Instr → Bool
  names (call f) = calls f
  names (ref_func f) = refs f
  names _ = false

  unfoldable pub seq_names : Instrs → Bool
  seq_names [] = false
  seq_names ((i, loc) ∷ rest) = names i || seq_names rest

  unfoldable pub body_names : Body → Bool
  body_names [] = false
  body_names (seq ∷ body) = seq_names seq.instrs || body_names body

  names-detect_instr :
      (fns : List FunctionId) (flag : Bool) (d : Detected) (i : Instr)
      → names (detect_instr fns flag d i).1 ≡ names i
  unfolding names detect_instr
  names-detect_instr fns true d (local_set l) = refl
  names-detect_instr fns true d (local_tee l) = refl
  names-detect_instr fns true d (call f) = refl
  names-detect_instr fns true d _ = refl
  names-detect_instr fns false d _ = refl

  seq_names-detect_instrs :
      (fns : List FunctionId) (flag : Bool) (d : Detected) (is : Instrs)
      → seq_names (detect_instrs fns flag d is).1 ≡ seq_names is
  unfolding seq_names detect_instrs
  seq_names-detect_instrs fns flag d [] = refl
  seq_names-detect_instrs fns flag d ((i, loc) ∷ rest) =
      ap₂ (λ (a b : Bool). a || b) (names-detect_instr fns flag d i)
        (seq_names-detect_instrs fns (detect_instr fns flag d i).2 (detect_instr fns flag d i).0
          rest)

  pub body_names-detect_body :
      (fns : List FunctionId) (d : Detected) (body : Body)
      → body_names (detect_body fns d body).1 ≡ body_names body
  unfolding body_names detect_body
  body_names-detect_body fns d [] = refl
  body_names-detect_body fns d (seq ∷ body) =
      ap₂ (λ (a b : Bool). a || b) (seq_names-detect_instrs fns false d seq.instrs)
        (body_names-detect_body fns (detect_instrs fns false d seq.instrs).0 body)

  seq_names-replace_seq :
      (s : SeqId) (reps : Replacements) (is : Instrs)
      → seq_names (replace_seq s reps is).1 ≡ seq_names is
  unfolding seq_names replace_seq names
  seq_names-replace_seq s reps [] = refl
  seq_names-replace_seq s reps ((local_get l, loc) ∷ rest) =
      seq_names-replace_seq s (take_replacement reps s l).1 rest
  seq_names-replace_seq s reps ((i, loc) ∷ rest) =
      ap (λ (b : Bool). names i || b) (seq_names-replace_seq s reps rest)

  pub body_names-replace_local_gets :
      (reps : Replacements) (body : Body)
      → body_names (replace_local_gets reps body) ≡ body_names body
  unfolding body_names replace_local_gets
  body_names-replace_local_gets reps [] = refl
  body_names-replace_local_gets reps (seq ∷ body) =
      ap₂ (λ (a b : Bool). a || b) (seq_names-replace_seq seq.id reps seq.instrs)
        (body_names-replace_local_gets (replace_seq seq.id reps seq.instrs).0 body)

  jump :
      {X : Type 0} (o : Outcome Error X) (f : X → Instr) (i' : Instr)
      → ((x : X) → names (f x) ≡ false)
      → (o >>= λ x. ok (f x)) ≡ ok i'
      → names i' ≡ false
  jump o f i' none_ h = let (x, _, made) = >>=-eq-ok o _ h in ap names (sym (ok-inj made)) ∙ none_ x

  jumps :
      {X Y : Type 0} (o : Outcome Error X) (o' : Outcome Error Y) (f : X → Y → Instr) (i' : Instr)
      → ((x : X) (y : Y) → names (f x y) ≡ false)
      → (o >>= λ x. o' >>= λ y. ok (f x y)) ≡ ok i'
      → names i' ≡ false
  jumps o o' f i' none_ h = let (x, _, made) = >>=-eq-ok o _ h in jump o' (f x) i' (none_ x) made

  names-rename_instr :
      (m : SequenceMapping) (i i' : Instr) → rename_instr m i ≡ ok i' → names i' ≡ names i
  unfolding names rename_instr
  names-rename_instr m (block s) i' h = jump (renamed m s) block i' (λ x. refl) h
  names-rename_instr m (loop s) i' h = jump (renamed m s) loop i' (λ x. refl) h
  names-rename_instr m (br s) i' h = jump (renamed m s) br i' (λ x. refl) h
  names-rename_instr m (br_if s) i' h = jump (renamed m s) br_if i' (λ x. refl) h
  names-rename_instr m (if_else s t) i' h =
      jumps (renamed m s) (renamed m t) if_else i' (λ x y. refl) h
  names-rename_instr m (br_table ss t) i' h =
      jumps (renamed_all m ss) (renamed m t) br_table i' (λ x y. refl) h
  names-rename_instr m i i' h = ap names (sym (ok-inj h))

  seq_names-rename_instrs :
      (m : SequenceMapping) (is is' : Instrs)
      → rename_instrs m is ≡ ok is'
      → seq_names is' ≡ seq_names is
  unfolding seq_names rename_instrs
  seq_names-rename_instrs m [] is' h = ap seq_names (sym (ok-inj h))
  seq_names-rename_instrs m ((i, loc) ∷ rest) is' h =
      let (i', one, h₁) = >>=-eq-ok (rename_instr m i) _ h in
      let (rest', more, made) = >>=-eq-ok (rename_instrs m rest) _ h₁ in
      ap seq_names (sym (ok-inj made))
      ∙ ap₂ (λ (a b : Bool). a || b) (names-rename_instr m i i' one)
          (seq_names-rename_instrs m rest rest' more)

  seq_names-clone_instrs :
      (m : SequenceMapping) (s : SeqId) (reps : Replacements) (is : Instrs)
      (out : Replacements × Instrs)
      → clone_instrs m s reps is ≡ ok out
      → seq_names out.1 ≡ seq_names is
  seq_names-clone_instrs m s reps is out h =
      let (is', renamed_, made) =
        >>=-eq-ok (rename_instrs m is) _ (sym (clone_instrs-replace_seq m s reps is) ∙ h) in
      ap (λ (o : Replacements × Instrs). seq_names o.1) (sym (ok-inj made))
      ∙ seq_names-replace_seq s reps is'
      ∙ seq_names-rename_instrs m is is' renamed_

  seq_names-block_mut :
      (body : Body) (s : SeqId) (is : Instrs)
      → body_names body ≡ false
      → block_mut body s ≡ some is
      → seq_names is ≡ false
  unfolding body_names block_mut
  seq_names-block_mut [] s is h e = cc
  seq_names-block_mut (seq ∷ body) s is h e =
      let (here, there) = or_both (seq_names seq.instrs) (body_names body) h in
      elim (Bool-cases (seq.id == s)) [
        | inl yes_ ↦
            let e' : some seq.instrs ≡ some is = rw yes_ at e in
            let same : seq.instrs ≡ is = cc in ap seq_names (sym same) ∙ here
        | inr no_ ↦ seq_names-block_mut body s is there (rw no_ at e)
      ]

  some_of :
      {A : Type 0} (o : Option A) (a : A)
      → ◌≡◌ {A = Outcome Error A} (or_fault o) (ok a)
      → o ≡ some a
  some_of none a h = cc
  some_of (some b) a h = ap some (ok-inj h)

  pub body_names-clone_function :
      (m pairs : SequenceMapping) (reps : Replacements) (body body' : Body)
      → body_names body ≡ false
      → clone_function m pairs reps body ≡ ok body'
      → body_names body' ≡ false
  unfolding body_names clone_function
  body_names-clone_function m [] reps body body' h e = ap body_names (sym (ok-inj e))
  body_names-clone_function m ((old_id, new_id) ∷ pairs) reps body body' h e =
      let (instrs, found, e₁) = >>=-eq-ok (or_fault (block_mut body old_id)) _ e in
      let (cloned, one, e₂) = >>=-eq-ok (clone_instrs m old_id reps instrs) _ e₁ in
      let (rest, more, made) = >>=-eq-ok (clone_function m pairs cloned.0 body) _ e₂ in
      ap body_names (sym (ok-inj made))
      ∙ ap₂ (λ (a b : Bool). a || b)
          (seq_names-clone_instrs m old_id reps instrs cloned one
            ∙ seq_names-block_mut body old_id instrs h
                (some_of (block_mut body old_id) instrs found))
          (body_names-clone_function m pairs cloned.0 body rest h more)
