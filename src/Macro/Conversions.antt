-- ===== src/Macro/Conversions.antt =====
-- What the expressions do that crates/macro/src/externref.rs generates for resources, and the body of a wrapper, by
-- the rules of Rust: the arguments of a call are evaluated from left to right, what an argument borrows from is a
-- temporary, and a statement drops its temporaries at its end, the latest first. A panic and a trap end the run.
pub mod Types
pub mod Made
pub mod Released
pub mod Calls
pub mod Passed
pub mod Arrived
pub mod Called
use externref.Prelude.{List, [], ◌∷◌, ◌++◌, Option, none, some, Str, ℕ}
use externref.Wasm.{Ref}
use externref.Macro.Kinds.{
  SimpleResourceKind, owned, by_ref, by_mut_ref, Code, var, some_of, resource_new, new_non_null,
  as_ref, as_mut, ref_to, mut_ref_to, raw, take_raw,
}
use externref.Macro.Wrappers.{Tail, value, statement, convert, Wrapper}
use externref.Resource.{Imports, World, Resource, M, ◌>>=◌, ◌>>◌, return}

-- A value of `ExternRef`, of a resource or a reference to one, of an option of these, or of another type.
pub data Val : Type 0 where
  extern : Ref → Val
  simple : SimpleResourceKind → Resource → Val
  option : SimpleResourceKind → Option Resource → Val
  other : ℕ → Val

-- A value, with the temporaries of the expression, the latest first.
abbrev pub Result : Type 0
Result = Val × List Resource

-- No expression of these types; such code does not compile.
abbrev pub ill_typed : {A : Type 0} → M A
ill_typed w = none

abbrev pub owned_option : Option Resource → M Result
owned_option o = return (option owned o, [])

abbrev pub owned_simple : Resource → M Result
owned_simple r = return (simple owned r, [])

abbrev raw_of : Ref → M Result
raw_of r = return (extern r, [])

abbrev pub more : List Resource → Result → M Result
more temps r = return (r.0, r.1 ++ temps)

abbrev pub on : (Val → M Result) → Result → M Result
on op r = op r.0 >>= more r.1

unfoldable pub wrap_some : Val → M Result
wrap_some (simple kind r) = return (option kind (some r), [])
wrap_some _ = ill_typed

-- A borrowed value becomes a temporary.
unfoldable pub borrow : SimpleResourceKind → Val → M Result
borrow kind (simple owned r) = return (simple kind r, r ∷ [])
borrow kind _ = ill_typed

unfoldable pub borrow_option : SimpleResourceKind → Val → M Result
borrow_option kind (option owned none) = return (option kind none, [])
borrow_option kind (option owned (some r)) = return (option kind (some r), r ∷ [])
borrow_option kind _ = ill_typed

module _ (imports : Imports) where
  -- The operations on the value of their operand.
  unfoldable pub call_new : Val → M Result
  call_new (extern r) = externref.Resource.new imports r >>= owned_option
  call_new _ = ill_typed

  unfoldable pub call_new_non_null : Val → M Result
  call_new_non_null (extern r) = externref.Resource.new_non_null imports r >>= owned_simple
  call_new_non_null _ = ill_typed

  unfoldable pub call_raw : Val → M Result
  call_raw (option by_ref o) = externref.Resource.raw imports o >>= raw_of
  call_raw (option by_mut_ref o) = externref.Resource.raw imports o >>= raw_of
  call_raw _ = ill_typed

  unfoldable pub call_take_raw : Val → M Result
  call_take_raw (option owned o) = externref.Resource.take_raw imports o >>= raw_of
  call_take_raw _ = ill_typed

  unfoldable pub eval : (Str → Val) → Code → M Result
  eval env (var name) = return (env name, [])
  eval env (some_of e) = eval env e >>= on wrap_some
  eval env (resource_new cr e) = eval env e >>= on call_new
  eval env (new_non_null cr e) = eval env e >>= on call_new_non_null
  eval env (as_ref e) = eval env e >>= on (borrow_option by_ref)
  eval env (as_mut e) = eval env e >>= on (borrow_option by_mut_ref)
  eval env (ref_to e) = eval env e >>= on (borrow by_ref)
  eval env (mut_ref_to e) = eval env e >>= on (borrow by_mut_ref)
  eval env (raw cr e) = eval env e >>= on call_raw
  eval env (take_raw cr e) = eval env e >>= on call_take_raw

  unfoldable pub drop_all : List Resource → M (Unit {0})
  drop_all [] = return tt
  drop_all (r ∷ rs) = externref.Resource.drop imports r >> drop_all rs

  -- `callee(args)`, behind the arguments `vs` that have been evaluated; then the temporaries are dropped.
  unfoldable pub run_args : (Str → Val) → (List Val → M Val) → List Code → List Val → M Val
  run_args env callee [] vs = callee vs
  run_args env callee (c ∷ cs) vs = eval env c >>= λ r.
      run_args env callee cs (vs ++ (r.0 ∷ [])) >>= λ out. drop_all r.1 >> return out

  -- The only variable of a conversion behind the call is `__output`.
  unfoldable pub run_tail : Tail → Val → M Val
  run_tail value out = return out
  run_tail statement out = return out
  run_tail (convert code) out = eval (λ name. out) code >>= λ r. drop_all r.1 >> return r.0

  -- The body of a wrapper. The guard does nothing.
  unfoldable pub run_wrapper : (Str → Val) → (List Val → M Val) → Wrapper → M Val
  run_wrapper env callee wrapper = run_args env callee wrapper.args [] >>= run_tail wrapper.tail
