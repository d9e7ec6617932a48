-- ===== src/Macro/Function/Marks.antt =====
-- Which slots of a signature are resources, and what the macro finds.
use externref.Prelude.{
  ℕ, zero, suc, ◌+◌, ◌≤◌, ◌<◌, ◌≡◌, refl, ◌∙◌, Bool, true, false, ◌&&◌, ◌||◌, List, [], ◌∷◌, ◌++◌,
  map, Option, none, some, ◌==◌, ==→eq, ==_refl, ne→==, length, All, Bool-cases, inl, inr, arith,
  or_false,
}
use externref.Signature.Bits.Indices.{marked}
use externref.Macro.Syntax.{FnArg, Output, default_output, returns, Signature}
use externref.Macro.Kinds.{ResourceKind, from_type}
use externref.Macro.Function.{
  ReturnType, default, not_resource, resource, arg_kind, add_arg, resource_args_from,
  return_type_of, has_args, is_resource_return, as_return, return_count, ret_idx,
}

abbrev pub is_some {ℓ} : {A : Type ℓ} → Option A → Bool
is_some none = false
is_some (some a) = true

abbrev pub written : Output → ℕ
written default_output = 0
written (returns ty) = 1

-- The slots of a signature: its arguments, and its return type if one is written.
unfoldable pub slots : Signature → ℕ
slots sig = length sig.inputs + written sig.output

unfoldable pub is_resource_arg : List FnArg → ℕ → Bool
is_resource_arg [] j = false
is_resource_arg (arg ∷ inputs) zero = is_some (arg_kind arg)
is_resource_arg (arg ∷ inputs) (suc j) = is_resource_arg inputs j

unfoldable pub is_resource_output : Output → Bool
is_resource_output default_output = false
is_resource_output (returns ty) = is_some (from_type ty)

-- Is a slot a resource? The return type stands behind the arguments.
unfoldable pub is_resource_slot : Signature → ℕ → Bool
is_resource_slot sig j =
    is_resource_arg sig.inputs j || (is_resource_output sig.output && length sig.inputs == j)

and_false : (b : Bool) → (b && false || false) ≡ false
and_false b = ground arith

and_true : (b : Bool) → (b && true || false) ≡ b
and_true b = ground arith

and_false_or : (b c : Bool) → (b && false || c) ≡ c
and_false_or b c = ground arith

pub zero_add : (j : ℕ) → 0 + j ≡ j
zero_add j = omega arith

or_true : (b : Bool) → (b || true) ≡ true
or_true b = ground arith

eq→== : (a b : ℕ) → a ≡ b → (a == b) ≡ true
eq→== a b h = ground arith

pub marked-append : (xs ys : List ℕ) (j : ℕ) → marked (xs ++ ys) j ≡ (marked xs j || marked ys j)
unfolding marked
marked-append [] ys j = refl
marked-append (x ∷ xs) ys j = ground (arith, marked-append xs ys j)

abbrev pub keys : List (ℕ × ResourceKind) → List ℕ
keys args = map (λ p. p.0) args

marked-add_arg :
    (i j : ℕ) (k : Option ResourceKind) (args : List (ℕ × ResourceKind))
    → marked (keys (add_arg i k args)) j ≡ ((is_some k && i == j) || marked (keys args) j)
unfolding marked
marked-add_arg i j none args = refl
marked-add_arg i j (some k) args = refl

marked_below :
    (inputs : List FnArg) (i j : ℕ) → j < i → marked (keys (resource_args_from i inputs)) j ≡ false
unfolding marked resource_args_from
marked_below [] i j h = refl
marked_below (arg ∷ inputs) i j h =
    marked-add_arg i j (arg_kind arg) (resource_args_from (i + 1) inputs)
    ∙ rw (marked_below inputs (i + 1) j (omega arith), ne→== i j (omega arith))
        (and_false (is_some (arg_kind arg)))

pub marked-resource_args_from :
    (inputs : List FnArg) (i j : ℕ)
    → marked (keys (resource_args_from i inputs)) (i + j) ≡ is_resource_arg inputs j
unfolding marked resource_args_from is_resource_arg
marked-resource_args_from [] i j = refl
marked-resource_args_from (arg ∷ inputs) i zero =
    marked-add_arg i (i + 0) (arg_kind arg) (resource_args_from (i + 1) inputs)
    ∙ rw (marked_below inputs (i + 1) (i + 0) (omega arith), eq→== i (i + 0) (omega arith))
        (and_true (is_some (arg_kind arg)))
marked-resource_args_from (arg ∷ inputs) i (suc j) =
    let e : i + suc j ≡ (i + 1) + j = omega arith in
    marked-add_arg i (i + suc j) (arg_kind arg) (resource_args_from (i + 1) inputs)
    ∙ rw (ne→== i (i + suc j) (omega arith), e)
        (and_false_or (is_some (arg_kind arg)) _ ∙ marked-resource_args_from inputs (i + 1) j)

pub resource_args-lt :
    (inputs : List FnArg) (i n : ℕ)
    → i + length inputs ≤ n
    → All (λ j. j < n) (keys (resource_args_from i inputs))
unfolding resource_args_from
resource_args-lt [] i n h = tt
resource_args-lt (arg ∷ inputs) i n h =
    add_arg-lt (arg_kind arg) (resource_args-lt inputs (i + 1) n (omega arith))
  where
    add_arg-lt :
        (k : Option ResourceKind)
        → All (λ j. j < n) (keys (resource_args_from (i + 1) inputs))
        → All (λ j. j < n) (keys (add_arg i k (resource_args_from (i + 1) inputs)))
    add_arg-lt none rest = rest
    add_arg-lt (some k) rest = (omega arith, rest)

pub All-marked :
    (n : ℕ) (xs : List ℕ) → ((j : ℕ) → marked xs j ≡ true → j < n) → All (λ j. j < n) xs
unfolding marked
All-marked n [] h = tt
All-marked n (x ∷ xs) h =
    (h x (rw (==_refl x)), All-marked n xs (λ j e. h j (rw e (or_true (x == j)))))

pub marked-lt : (n : ℕ) (xs : List ℕ) (j : ℕ) → All (λ j. j < n) xs → marked xs j ≡ true → j < n
unfolding marked
marked-lt n [] j all e = cc
marked-lt n (x ∷ xs) j (h, all) e = elim (Bool-cases (x == j)) [
  | inl same ↦ omega (arith, ==→eq x j same)
  | inr other ↦ marked-lt n xs j all (rw other at e)
]

as_return_laws :
    (k : Option ResourceKind) (n : ℕ)
    → (return_count (as_return k) ≡ 1)
      × (is_resource_return (as_return k) ≡ is_some k)
      × ((j : ℕ) → marked (ret_idx (as_return k) n) j ≡ (is_some k && n == j))
      × All (λ j. j < n + return_count (as_return k)) (ret_idx (as_return k) n)
unfolding marked
as_return_laws none n = (refl, refl, λ j. refl, tt)
as_return_laws (some k) n = (refl, refl, λ j. or_false (n == j), (omega arith, tt))

pub return_type_of_laws :
    (out : Output) (n : ℕ)
    → (return_count (return_type_of out) ≡ written out)
      × (is_resource_return (return_type_of out) ≡ is_resource_output out)
      × ((j : ℕ) → marked (ret_idx (return_type_of out) n) j ≡ (is_resource_output out && n == j))
      × All (λ j. j < n + return_count (return_type_of out)) (ret_idx (return_type_of out) n)
unfolding marked return_type_of is_resource_output
return_type_of_laws default_output n = (refl, refl, λ j. refl, tt)
return_type_of_laws (returns ty) n = as_return_laws (from_type ty) n

pub has_args-lt :
    (inputs : List FnArg) (i : ℕ)
    → has_args (resource_args_from i inputs) ≡ true
    → 0 < length inputs
unfolding resource_args_from
has_args-lt [] i h = cc
has_args-lt (arg ∷ inputs) i h = omega arith

pub return_count-pos : (r : ReturnType) → is_resource_return r ≡ true → 0 < return_count r
return_count-pos default h = cc
return_count-pos not_resource h = cc
return_count-pos (resource k) h = omega arith
