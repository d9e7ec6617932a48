-- ===== src/Resource.antt =====
-- `Resource` of crates/lib/src/lib.rs, on wasm32: an index into the table of references. The three
-- imports of the surrogate module are the operations of an interface, which the functions that the
-- processor puts in their place implement (Resource/Patched).
pub mod Laws
pub mod Lifetime
pub mod Steps
pub mod Removal
pub mod Ownership
pub mod Patched
use externref.Prelude.{
  ℕ, ◌<◌, ◌≡◌, refl, Bool, true, false, List, [], ◌∷◌, ◌++◌, Option, none, some, ◌==◌,
  if◌then◌else◌, length, get_elem?,
}
use externref.Wasm.{
  HostRef, Ref, Table, Value, i32, ref, i32_mod, minus_one, Answer, answer, trapped,
}
use externref.Patched.Effects.{Inserted}

-- The imports, and what a `Resource` relies on. `hook` is the argument list of the calls that a dropping
-- makes.
pub record Imports : Type 0 where
  pub insert : Ref → Table → Answer
  pub get : ℕ → Table → Answer
  pub drop : ℕ → Table → Answer
  pub hook : Ref → List (ℕ × Ref)
  pub insert_null :
      (t : Table) → length t < i32_mod → insert none t ≡ answer (i32 minus_one ∷ []) t []
  pub insert_some :
      (r : HostRef) (t t' : Table) (vs : List Value) (calls : List (ℕ × Ref))
      → length t < i32_mod
      → insert (some r) t ≡ answer vs t' calls
      → (i : ℕ) × (vs ≡ i32 i ∷ []) × (calls ≡ []) × Inserted r t i t'
  pub get_null : (t : Table) → get minus_one t ≡ answer (ref none ∷ []) t []
  pub get_slot :
      (i : ℕ) (t : Table) (r : Ref)
      → i < minus_one
      → get_elem? t i ≡ some r
      → get i t ≡ answer (ref r ∷ []) t []
  pub drop_slot :
      (i : ℕ) (t : Table) (r : Ref)
      → get_elem? t i ≡ some r
      → (t' : Table) × (drop i t ≡ answer [] t' (hook r))
        × (length t' ≡ length t)
        × ((j : ℕ) → get_elem? t' j ≡ (if j == i then some none else get_elem? t j))

-- The state of the instance that the code changes: the table, and the calls of the hook so far.
pub record World : Type 0 where
  pub table : Table
  pub calls : List (ℕ × Ref)

-- Code with effects; `none` is a trap or a panic.
abbrev pub M : Type 0 → Type 0
M A = World → Option (A × World)

abbrev pub go_on : {A B : Type 0} → Option (A × World) → (A → M B) → Option (B × World)
go_on none f = none
go_on (some (a, w)) f = f a w

infixl 5 ◌>>=◌ ◌>>◌
abbrev pub ◌>>=◌ : {A B : Type 0} → M A → (A → M B) → M B
◌>>=◌ m f w = go_on (m w) f

pub go_on-some :
    {A B : Type 0} (x : Option (A × World)) (f : A → M B) (r : B × World)
    → go_on x f ≡ some r
    → (a : A) × (w : World) × (x ≡ some (a, w)) × (f a w ≡ some r)
go_on-some none f r e = cc
go_on-some (some (a, w)) f r e = (a, w, refl, e)

abbrev pub ◌>>◌ : {B : Type 0} → M (Unit {0}) → M B → M B
m >> k = m >>= λ _. k

abbrev pub return : {A : Type 0} → A → M A
return a w = some (a, w)

-- `assert!`
abbrev pub assert : Bool → M (Unit {0})
assert true w = some (tt, w)
assert false w = none

-- The result of a call with the types of the source: an index, a reference, nothing.
unfoldable pub index_of : Answer → World → Option (ℕ × World)
index_of (answer (i32 i ∷ []) t calls) w = some (i, record { table = t; calls = w.calls ++ calls })
index_of _ w = none

unfoldable pub ref_of : Answer → World → Option (Ref × World)
ref_of (answer (ref r ∷ []) t calls) w = some (r, record { table = t; calls = w.calls ++ calls })
ref_of _ w = none

unfoldable pub unit_of : Answer → World → Option (Unit {0} × World)
unit_of (answer [] t calls) w = some (tt, record { table = t; calls = w.calls ++ calls })
unit_of _ w = none

-- `Resource<T>`; `T` is a phantom.
pub record Resource : Type 0 where
  pub id : ℕ

-- `usize::MAX`
abbrev pub usize_max : ℕ
usize_max = 0xffff_ffff

-- `leak_id` forgets the resource, which is not dropped.
unfoldable pub leak_id : Resource → M ℕ
leak_id self = return self.id

unfoldable pub upcast : Resource → M Resource
upcast self = do id ← leak_id self; return (record { id = id })

unfoldable pub upcast_ref : Resource → Resource
upcast_ref self = record { id = self.id }

unfoldable pub downcast_unchecked : Resource → M Resource
downcast_unchecked self = do id ← leak_id self; return (record { id = id })

module _ (imports : Imports) where
  unfoldable pub insert_externref : Ref → M ℕ
  unfolding index_of
  insert_externref r w = index_of (imports.insert r w.table) w

  unfoldable pub get_externref : ℕ → M Ref
  unfolding ref_of
  get_externref id w = ref_of (imports.get id w.table) w

  unfoldable pub drop_externref : ℕ → M (Unit {0})
  unfolding unit_of
  drop_externref id w = unit_of (imports.drop id w.table) w

  -- `Resource::new`
  unfoldable pub new : Ref → M (Option Resource)
  new r = do
    id ← insert_externref r
    return (if id == usize_max then none else some (record { id = id }))

  unfoldable pub new_non_null : Ref → M Resource
  new_non_null r = do
    id ← insert_externref r
    assert (if id == usize_max then false else true)
    return (record { id = id })

  -- `Drop for Resource`
  unfoldable pub drop : Resource → M (Unit {0})
  drop self = drop_externref self.id

  unfoldable pub raw : Option Resource → M Ref
  raw none = get_externref usize_max
  raw (some resource) = get_externref resource.id

  -- The `match` of `take_raw` moves the resource into its arm: it is dropped at the end of the arm,
  -- before `get_externref` is called with the arm's value.
  unfoldable pub take_raw : Option Resource → M Ref
  take_raw none = get_externref usize_max
  take_raw (some resource) = do drop resource; get_externref resource.id
