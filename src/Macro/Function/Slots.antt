-- ===== src/Macro/Function/Slots.antt =====
-- The slots that a declaration marks, against the signature.
use externref.Prelude.{
  ℕ, ◌+◌, ◌/◌, ◌<◌, ◌≡◌, refl, sym, ap, ap₂, ◌∙◌, Bool, true, ◌||◌, List, Option, length, All,
  All-append, Bool-cases, inl, inr, ok, arith,
}
use mathlib.Core.Path.{fun_ext}
use externref.Signature.Types.{BitSliceBuilder}
use externref.Signature.Bits.{build, set_indices}
use externref.Signature.Bits.Builder.{Fits}
use externref.Signature.Bits.Indices.{select, marked, set_indices-with_set_bits}
use externref.Macro.Syntax.{Segments, Expr, Signature}
use externref.Macro.Function.{
  resource_args_from, return_type_of, from_sig, needs_declaring, has_args, create_externrefs,
  evaluate, ret_idx,
}
use externref.Macro.Function.Marks.{
  written, keys, is_resource_slot, slots, has_args-lt, marked-resource_args_from, resource_args-lt,
  All-marked, zero_add, return_count-pos, marked-lt, marked-append, return_type_of_laws,
}

-- `order` lists the keys of a map, each once, in some order.
module _ (order : List ℕ → List ℕ)
    (keeps : (is : List ℕ) (j : ℕ) → marked (order is) j ≡ marked is j) where
  set_bits-marked :
      (sig : Signature) (name : Option Expr) (cr : Segments) (j : ℕ)
      → marked (create_externrefs order (from_sig sig name cr)).set_bits j ≡ is_resource_slot sig j
  unfolding create_externrefs from_sig is_resource_slot
  set_bits-marked sig name cr j =
      marked-append (order (keys (resource_args_from 0 sig.inputs)))
        (ret_idx (return_type_of sig.output) (length sig.inputs)) j
      ∙ ap₂ (λ (a b : Bool). a || b)
          (keeps (keys (resource_args_from 0 sig.inputs)) j
            ∙ ap (marked (keys (resource_args_from 0 sig.inputs))) (sym (zero_add j))
            ∙ marked-resource_args_from sig.inputs 0 j)
          ((return_type_of_laws sig.output (length sig.inputs)).2 j)

  set_bits-lt :
      (sig : Signature) (name : Option Expr) (cr : Segments)
      → All (λ j. j < slots sig) (create_externrefs order (from_sig sig name cr)).set_bits
  unfolding create_externrefs from_sig slots
  set_bits-lt sig name cr =
      let n = length sig.inputs in
      let (count, _, _, ret) = return_type_of_laws sig.output n in
      All-append _ (order (keys (resource_args_from 0 sig.inputs)))
        (ret_idx (return_type_of sig.output) n)
        (All-marked _ _ (λ j e.
          marked-lt _ _ j (resource_args-lt sig.inputs 0 (n + written sig.output) (omega arith))
            (sym (keeps (keys (resource_args_from 0 sig.inputs)) j) ∙ e)))
        (rw (← count) ret)

  slots-pos :
      (sig : Signature) (name : Option Expr) (cr : Segments)
      → needs_declaring (from_sig sig name cr) ≡ true
      → 0 < slots sig
  unfolding needs_declaring from_sig slots
  slots-pos sig name cr h =
      let (count, ret, _, _) = return_type_of_laws sig.output (length sig.inputs) in
      elim (Bool-cases (has_args (resource_args_from 0 sig.inputs))) [
        | inl some_ ↦ omega (arith, has_args-lt sig.inputs 0 some_)
        | inr none_ ↦
            omega (arith, count, return_count-pos (return_type_of sig.output) (rw none_ at h))
      ]

  bit_len-slots :
      (sig : Signature) (name : Option Expr) (cr : Segments)
      → (create_externrefs order (from_sig sig name cr)).bit_len ≡ slots sig
  unfolding create_externrefs from_sig slots
  bit_len-slots sig name cr = omega (arith, (return_type_of_laws sig.output (length sig.inputs)).0)

  bytes-slots :
      (sig : Signature) (name : Option Expr) (cr : Segments)
      → (create_externrefs order (from_sig sig name cr)).bytes ≡ (slots sig + 7) / 8
  unfolding create_externrefs from_sig
  bytes-slots sig name cr = ap (λ n. (n + 7) / 8) (bit_len-slots sig name cr)

  -- If a function needs a declaration, then the expression that the macro writes for its slots evaluates without
  -- a panic, whatever the order in which the map gives its keys, to a slice with a bit for each slot, of which
  -- those are set that are resources by the signature.
  pub create_externrefs-is_resource_slot :
      (sig : Signature) (name : Option Expr) (cr : Segments)
      → needs_declaring (from_sig sig name cr) ≡ true
      → (t : BitSliceBuilder) × (evaluate (create_externrefs order (from_sig sig name cr)) ≡ ok t)
        × Fits t.bytes t.bit_len
        × (t.bit_len ≡ slots sig)
        × (set_indices (build t) ≡ ok (select (is_resource_slot sig) 0 (slots sig)))
  unfolding evaluate
  create_externrefs-is_resource_slot sig name cr h =
      let e = create_externrefs order (from_sig sig name cr) in
      let (t, made, fits, len, shown) =
        set_indices-with_set_bits ((slots sig + 7) / 8) (slots sig) e.set_bits refl
          (slots-pos sig name cr h) (set_bits-lt sig name cr) in
      (
        t,
        rw (bytes-slots sig name cr, bit_len-slots sig name cr) made,
        fits,
        len,
        shown ∙ ap (λ p. ok (select p 0 (slots sig))) (fun_ext (set_bits-marked sig name cr)),
      )
