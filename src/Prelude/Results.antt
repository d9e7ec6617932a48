-- ===== src/Prelude/Results.antt =====
-- Results of Rust code: a value, an error value, or a panic (an index out of bounds, a failed
-- assertion). `fault` is the panic.
use mathlib.Core.Path.{◌≡◌, refl}
use mathlib.Core.Bool.{Bool, true, false}
use mathlib.Core.Option.{Option, none, some}

pub data Outcome {ℓ} (E : Type 0) (A : Type ℓ) : Type ℓ where
  ok : A → Outcome E A
  err : E → Outcome E A
  fault : Outcome E A

-- Code that returns no error value, and may panic.
abbrev pub Checked {ℓ} : Type ℓ → Type ℓ
Checked A = Outcome ⊥ A

-- The code goes on with the value that it has, and ends with a panic or an error.
infixl 5 ◌>>=◌
abbrev pub ◌>>=◌ {ℓ κ} :
    {E : Type 0} {A : Type ℓ} {B : Type κ} → Outcome E A → (A → Outcome E B) → Outcome E B
fault >>= next = fault
err reason >>= next = err reason
ok value >>= next = next value

-- `assert!`
abbrev pub assert : {E : Type 0} → Bool → Outcome E (Unit {0})
assert true = ok tt
assert false = fault

-- Early return of an error.
abbrev pub ensure : {E : Type 0} → Bool → E → Outcome E (Unit {0})
ensure true e = ok tt
ensure false e = err e

-- An index that may be out of bounds.
abbrev pub or_fault {ℓ} : {E : Type 0} {A : Type ℓ} → Option A → Outcome E A
or_fault none = fault
or_fault (some a) = ok a

-- `map_err`
abbrev pub map_err {ℓ} : {E F : Type 0} {A : Type ℓ} → (E → F) → Outcome E A → Outcome F A
map_err f (ok a) = ok a
map_err f (err e) = err (f e)
map_err f fault = fault

-- Checked code called by code that has errors.
abbrev pub checked {ℓ} : {E : Type 0} {A : Type ℓ} → Checked A → Outcome E A
checked (ok a) = ok a
checked (err e) = absurd e
checked fault = fault

-- A result holds one value.
pub ok-inj {ℓ} : {E : Type 0} {A : Type ℓ} {a b : A} → ◌≡◌ {A = Outcome E A} (ok a) (ok b) → a ≡ b
ok-inj h = cc

-- What ended with a value had a value in between.
pub >>=-eq-ok {ℓ κ} :
    {E : Type 0} {A : Type ℓ} {B : Type κ} (m : Outcome E A) (next : A → Outcome E B) {last : B}
    → (m >>= next) ≡ ok last
    → (value : A) × (m ≡ ok value) × (next value ≡ ok last)
>>=-eq-ok fault next h = cc
>>=-eq-ok (err reason) next h = cc
>>=-eq-ok (ok value) next h = (value, refl, h)

infixl 5 ◌>>◌
abbrev pub ◌>>◌ {ℓ} : {E : Type 0} {B : Type ℓ} → Outcome E (Unit {0}) → Outcome E B → Outcome E B
fault >> next = fault
err reason >> next = err reason
ok done >> next = next

-- A check in front passed.
pub >>-eq-ok {ℓ} :
    {E : Type 0} {B : Type ℓ} (m : Outcome E (Unit {0})) (next : Outcome E B) {last : B}
    → (m >> next) ≡ ok last
    → (m ≡ ok tt) × (next ≡ ok last)
>>-eq-ok fault next h = cc
>>-eq-ok (err reason) next h = cc
>>-eq-ok (ok done) next h = (refl, h)
