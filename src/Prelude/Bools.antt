-- ===== src/Prelude/Bools.antt =====
-- Laws of the Boolean tests and connectives that the components share.
use Prim.Native.Nat.{ℕ}
use mathlib.Core.Path.{◌≡◌}
use mathlib.Core.Bool.{Bool, true, false, ◌&&◌, ◌||◌}
use native.Mathlib.Omega.{arith}
use externref.Prelude.Tests.{◌==◌}

pub ==_comm : (a b : ℕ) → (a == b) ≡ (b == a)
==_comm a b = ground arith

pub or_false : (b : Bool) → (b || false) ≡ b
or_false b = ground arith

pub or_assoc : (a b c : Bool) → (a || (b || c)) ≡ ((a || b) || c)
or_assoc a b c = ground arith

pub false_or : (a b : Bool) → a ≡ false → b ≡ false → (a || b) ≡ false
false_or a b h k = ground arith

pub or_both : (a b : Bool) → (a || b) ≡ false → (a ≡ false) × (b ≡ false)
or_both a b h = ground arith

pub and_both : (a b : Bool) → (a && b) ≡ true → (a ≡ true) × (b ≡ true)
and_both a b h = ground arith
