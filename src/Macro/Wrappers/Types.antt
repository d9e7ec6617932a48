-- ===== src/Macro/Wrappers/Types.antt =====
-- The type of an export's wrapper in WASM: the compiler gives a value to each argument, and to the return type.
use externref.Prelude.{
  ℕ, zero, suc, ◌+◌, ◌-◌, ◌<◌, ◌≡◌, refl, sym, ap, ◌∙◌, true, false, List, [], ◌∷◌, map, Option,
  none, some, ◌==◌, ==→eq, length, get_elem?, ltb, lt→ltb, Option-cases, Bool-cases, inl, inr,
  arith, and_both,
}
use externref.Processor.Ir.{ValType, i32}
use externref.Processor.Types.{FuncType, placement}
use externref.Signature.Bits.Indices.{marked}
use externref.Macro.Syntax.{
  Ty, Pat, Segments, FnArg, ident_pat, receiver, typed, Output, default_output, returns, Signature,
  Expr, ItemFn, Attribute,
}
use externref.Macro.Kinds.{ResourceKind, from_type}
use externref.Macro.Function.{arg_kind, resource_args_from, return_type_of, as_return, from_sig}
use externref.Macro.Function.Marks.{
  is_some, is_resource_arg, is_resource_output, is_resource_slot, keys, marked-resource_args_from,
}
use externref.Macro.Wrappers.{
  arg_name, kind_of, extern_ref_ty, export_inputs, export_output, wrap_export,
}

-- What the compiler makes of the types of an `extern "C"` function. `ExternRef` is a `usize` inside.
pub record Lowering (cr : Segments) : Type 0 where
  pub arg : FnArg → ValType
  pub result : Ty → List ValType
  pub arg_extern_ref : (pat : Pat) → arg (typed pat (extern_ref_ty cr)) ≡ i32
  pub result_extern_ref : result (extern_ref_ty cr) ≡ i32 ∷ []

module _ {cr : Segments} (lowering : Lowering cr) where
  abbrev pub results_of : Output → List ValType
  results_of default_output = []
  results_of (returns ty) = lowering.result ty

  unfoldable pub wasm_type : Signature → FuncType
  wasm_type sig = record { params = map lowering.arg sig.inputs; results = results_of sig.output }

length-map : {A B : Type 0} (f : A → B) (xs : List A) → length (map f xs) ≡ length xs
length-map f [] = refl
length-map f (x ∷ xs) = omega (arith, length-map f xs)

length-export_inputs :
    (cr : Segments) (args : List (ℕ × ResourceKind)) (i : ℕ) (inputs : List FnArg)
    → length (export_inputs cr args i inputs).0 ≡ length inputs
unfolding export_inputs
length-export_inputs cr args i [] = refl
length-export_inputs cr args i (receiver k ∷ inputs) =
    omega (arith, length-export_inputs cr args (i + 1) inputs)
length-export_inputs cr args i (typed pat ty ∷ inputs) =
    omega (arith, length-export_inputs cr args (i + 1) inputs)

-- The map of the resource arguments has the marked keys.
kind_of-marked :
    (args : List (ℕ × ResourceKind)) (j : ℕ) → is_some (kind_of args j) ≡ marked (keys args) j
unfolding kind_of marked
kind_of-marked [] j = refl
kind_of-marked ((i, kind) ∷ args) j = elim (Bool-cases (i == j)) [
  | inl same ↦ rw same
  | inr other ↦ rw other (kind_of-marked args j)
]

-- The arguments from number `i` on agree with the map.
abbrev pub Agree : List (ℕ × ResourceKind) → ℕ → List FnArg → Type 0
Agree args i inputs = (j : ℕ) → is_some (kind_of args (i + j)) ≡ is_resource_arg inputs j

-- Where the first argument is a resource, the map has its kind.
pub Agree-some :
    (args : List (ℕ × ResourceKind)) (i : ℕ) (arg : FnArg) (inputs : List FnArg)
    → Agree args i (arg ∷ inputs)
    → is_resource_arg (arg ∷ inputs) 0 ≡ true
    → (kind : ResourceKind) × (kind_of args i ≡ some kind)
Agree-some args i arg inputs agree h = elim (Option-cases (kind_of args i)) [
  | inl e ↦
      let first : i ≡ i + 0 = omega arith in
      let bad : false ≡ true =
        sym (ap is_some e) ∙ ap (λ n. is_some (kind_of args n)) first ∙ agree 0 ∙ h in
      cc
  | inr found ↦ found
]

pub Agree-suc :
    (args : List (ℕ × ResourceKind)) (i : ℕ) (arg : FnArg) (inputs : List FnArg)
    → Agree args i (arg ∷ inputs)
    → Agree args (i + 1) inputs
unfolding is_resource_arg
Agree-suc args i arg inputs agree k =
    let e : (i + 1) + k ≡ i + suc k = omega arith in
    ap (λ n. is_some (kind_of args n)) e ∙ agree (suc k)

pub Agree-from : (inputs : List FnArg) → Agree (resource_args_from 0 inputs) 0 inputs
Agree-from inputs j =
    kind_of-marked (resource_args_from 0 inputs) (0 + j) ∙ marked-resource_args_from inputs 0 j

pub is_resource_arg-lt :
    (inputs : List FnArg) (j : ℕ) → is_resource_arg inputs j ≡ true → j < length inputs
unfolding is_resource_arg
is_resource_arg-lt [] j h = cc
is_resource_arg-lt (arg ∷ inputs) zero h = omega arith
is_resource_arg-lt (arg ∷ inputs) (suc j) h = omega (arith, is_resource_arg-lt inputs j h)

ltb_irrefl : (n : ℕ) → ltb n n ≡ false
ltb_irrefl n = ground arith

sub_self : (n : ℕ) → n - n ≡ 0
sub_self n = omega arith

module _ {cr : Segments} (lowering : Lowering cr) where
  export_inputs-i32 :
      (args : List (ℕ × ResourceKind)) (i : ℕ) (inputs : List FnArg) (j : ℕ)
      → Agree args i inputs
      → is_resource_arg inputs j ≡ true
      → get_elem? (map lowering.arg (export_inputs cr args i inputs).0) j ≡ some i32
  unfolding export_inputs is_resource_arg arg_kind
  export_inputs-i32 args i [] j agree h = cc
  export_inputs-i32 args i (receiver k ∷ inputs) zero agree h = cc
  export_inputs-i32 args i (typed pat ty ∷ inputs) zero agree h =
      let (kind, e) = Agree-some args i (typed pat ty) inputs agree h in
      rw e (ap some (lowering.arg_extern_ref (ident_pat (arg_name i))))
  export_inputs-i32 args i (receiver k ∷ inputs) (suc j) agree h =
      export_inputs-i32 args (i + 1) inputs j (Agree-suc args i (receiver k) inputs agree) h
  export_inputs-i32 args i (typed pat ty ∷ inputs) (suc j) agree h =
      export_inputs-i32 args (i + 1) inputs j (Agree-suc args i (typed pat ty) inputs agree) h

  -- A signature that stands for another: its resources are references.
  pub record Stands (sig generated : Signature) : Type 0 where
    pub len : length generated.inputs ≡ length sig.inputs
    pub refs :
        (j : ℕ)
        → is_resource_arg sig.inputs j ≡ true
        → get_elem? (map lowering.arg generated.inputs) j ≡ some i32
    pub output : generated.output ≡ export_output cr (return_type_of sig.output) sig.output

  pub wrap_export-Stands :
      (sig : Signature) (name : Option Expr) (raw : ItemFn) (attr : Option Attribute)
      → raw.sig.inputs ≡ sig.inputs
      → raw.sig.output ≡ sig.output
      → Stands sig (wrap_export (from_sig sig name cr) raw attr).sig
  unfolding wrap_export from_sig
  wrap_export-Stands sig name raw attr same same_output = record {
    len =
        length-export_inputs cr (resource_args_from 0 sig.inputs) 0 raw.sig.inputs ∙ ap length same;
    refs = λ j h. rw same (
        export_inputs-i32 (resource_args_from 0 sig.inputs) 0 sig.inputs j (Agree-from sig.inputs)
          h);
    output = ap (export_output cr (return_type_of sig.output)) same_output;
  }

  module _ (sig generated : Signature) (stands : Stands sig generated) where
    pub params_len : length (wasm_type lowering generated).params ≡ length sig.inputs
    unfolding wasm_type
    params_len = length-map lowering.arg generated.inputs ∙ stands.len

    pub wasm_type-results :
        (wasm_type lowering generated).results
        ≡ results_of lowering (export_output cr (return_type_of sig.output) sig.output)
    unfolding wasm_type
    wasm_type-results = ap (results_of lowering) stands.output

    result-i32 :
        is_resource_output sig.output ≡ true → (wasm_type lowering generated).results ≡ i32 ∷ []
    unfolding is_resource_output return_type_of
    result-i32 h = wasm_type-results ∙ of_output sig.output h
      where
        of_kind :
            (out : Output) (k : Option ResourceKind)
            → is_some k ≡ true
            → results_of lowering (export_output cr (as_return k) out) ≡ i32 ∷ []
        of_kind out none e = cc
        of_kind out (some k) e = lowering.result_extern_ref

        of_output :
            (out : Output)
            → is_resource_output out ≡ true
            → results_of lowering (export_output cr (return_type_of out) out) ≡ i32 ∷ []
        of_output default_output e = cc
        of_output (returns ty) e = of_kind (returns ty) (from_type ty) e

    -- The slots that are resources have the type `i32` before the module is processed.
    pub wasm_type-i32 :
        (j : ℕ)
        → is_resource_slot sig j ≡ true
        → placement (wasm_type lowering generated) j ≡ some i32
    unfolding is_resource_slot placement wasm_type
    wasm_type-i32 j h = elim (Bool-cases (is_resource_arg sig.inputs j)) [
      | inl yes_ ↦
          rw
            (
              placement,
              params_len,
              lt→ltb j (length sig.inputs) (is_resource_arg-lt sig.inputs j yes_),
            )
            (stands.refs j yes_)
      | inr no_ ↦
          let (out, same_len) =
            and_both (is_resource_output sig.output) (length sig.inputs == j) (rw no_ at h) in
          rw (
            placement,
            params_len,
            ← ==→eq (length sig.inputs) j same_len,
            ltb_irrefl (length sig.inputs),
            sub_self (length sig.inputs),
            result-i32 out,
          )
    ]
