-- ===== src/Signature/Bits/Bytes.antt =====
-- The masks of one byte, as tables over every byte and every bit.
use externref.Prelude.{ℕ, ◌<◌, ◌≡◌, refl, sym, Bool, true, false, ◌||◌, ◌==◌, ltb, ltb→lt}
use externref.Prelude.Tables.{all_below, all_below→}
use externref.Signature.Bits.{set_bit, test_bit}

bool_eq : Bool → Bool → Bool
bool_eq true b = b
bool_eq false true = false
bool_eq false false = true

bool_eq→eq : (a b : Bool) → bool_eq a b ≡ true → a ≡ b
unfolding bool_eq
bool_eq→eq true b h = sym h
bool_eq→eq false true h = cc
bool_eq→eq false false h = refl

abbrev set_then_test : ℕ → ℕ → ℕ → Bool
set_then_test b k j = bool_eq (test_bit (set_bit b k) j) ((k == j) || test_bit b j)

set_then_test_table :
    all_below 256 (λ b. all_below 8 (λ k. all_below 8 (λ j. set_then_test b k j))) ≡ true
unfolding all_below bool_eq set_bit test_bit
set_then_test_table = refl

set_bit_table : all_below 256 (λ b. all_below 8 (λ k. ltb (set_bit b k) 256)) ≡ true
unfolding all_below set_bit
set_bit_table = refl

-- Setting bit `k` of a byte sets that bit and leaves the other seven.
pub test_bit-set_bit :
    (b k j : ℕ) → b < 256 → k < 8 → j < 8 → test_bit (set_bit b k) j ≡ ((k == j) || test_bit b j)
test_bit-set_bit b k j hb hk hj =
    bool_eq→eq _ _
      (all_below→ 8 _ j (all_below→ 8 _ k (all_below→ 256 _ b set_then_test_table hb) hk) hj)

pub set_bit-IsByte : (b k : ℕ) → b < 256 → k < 8 → set_bit b k < 256
set_bit-IsByte b k hb hk = ltb→lt _ _ (all_below→ 8 _ k (all_below→ 256 _ b set_bit_table hb) hk)

zero_table : all_below 8 (λ k. bool_eq (test_bit 0 k) false) ≡ true
unfolding all_below bool_eq test_bit
zero_table = refl

pub test_bit-zero : (k : ℕ) → k < 8 → test_bit 0 k ≡ false
test_bit-zero k h = bool_eq→eq _ _ (all_below→ 8 _ k zero_table h)
