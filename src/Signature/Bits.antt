-- ===== src/Signature/Bits.antt =====
-- `BitSliceBuilder` and `BitSlice` of crates/lib/src/signature.rs. A bit is one mask of a byte.
pub mod Bytes
pub mod Builder
pub mod Indices
use Prim.Native.Nat.{bit_and, bit_or}
use externref.Prelude.{
  ℕ, zero, suc, ◌+◌, ◌-◌, ◌*◌, ◌/◌, ◌%◌, ◌^◌, Bool, true, false, List, [], ◌∷◌, ◌++◌, ◌&&◌, Option,
  none, some, leb, ltb, if◌then◌else◌, length, get_elem?, set, replicate, Checked, ok, fault,
  assert, ◌>>=◌, ◌>>◌,
}
use externref.Signature.Types.{BitSlice, BitSliceBuilder}

-- `self.bytes[i]` where the index may be out of bounds.
abbrev pub index {ℓ} : {A : Type ℓ} → List A → ℕ → Checked A
index xs i = elim (get_elem? xs i) [ none ↦ fault | some x ↦ ok x ]

-- `BitSlice::builder::<BYTES>(bit_len)`
unfoldable pub builder : ℕ → ℕ → Checked BitSliceBuilder
builder n bit_len = do
  assert (ltb 0 n)
  assert (ltb ((n - 1) * 8) bit_len && leb bit_len (n * 8))
  ok (record { bytes = replicate n 0; bit_len = bit_len })

-- `byte |= 1 << k` and `byte & (1 << k) > 0`
unfoldable pub set_bit : ℕ → ℕ → ℕ
set_bit b k = bit_or b (2 ^ k)

unfoldable pub test_bit : ℕ → ℕ → Bool
test_bit b k = ltb 0 (bit_and b (2 ^ k))

unfoldable pub with_set_bit : BitSliceBuilder → ℕ → Checked BitSliceBuilder
with_set_bit self bit_idx = do
  assert (ltb bit_idx self.bit_len)
  b ← index self.bytes (bit_idx / 8)
  ok (record self { bytes = set self.bytes (bit_idx / 8) (set_bit b (bit_idx % 8)) })

-- The chain of `.with_set_bit(i)` calls that the macro writes behind `BitSlice::builder`.
unfoldable pub with_set_bits : List ℕ → BitSliceBuilder → Checked BitSliceBuilder
with_set_bits [] self = ok self
with_set_bits (i ∷ is) self = with_set_bit self i >>= with_set_bits is

unfoldable pub build : BitSliceBuilder → BitSlice
build self = record { bytes = self.bytes; bit_len = self.bit_len }

unfoldable pub is_set : BitSlice → ℕ → Checked Bool
is_set self idx =
    if ltb self.bit_len idx
    then ok false
    else (index self.bytes (idx / 8) >>= λ b. ok (test_bit b (idx % 8)))

-- `(lo..lo + n).filter(|&idx| self.is_set(idx))`, run to its end.
unfoldable pub set_indices_from : BitSlice → ℕ → ℕ → Checked (List ℕ)
set_indices_from self lo zero = ok []
set_indices_from self lo (suc n) = do
  here ← is_set self lo
  rest ← set_indices_from self (lo + 1) n
  ok (if here then lo ∷ rest else rest)

unfoldable pub set_indices : BitSlice → Checked (List ℕ)
set_indices self = set_indices_from self 0 self.bit_len

-- `u8::count_ones`, bit by bit.
unfoldable pub byte_ones : ℕ → ℕ → ℕ
byte_ones b zero = 0
byte_ones b (suc k) = (if test_bit b k then 1 else 0) + byte_ones b k

unfoldable pub count_ones_bytes : List ℕ → ℕ
count_ones_bytes [] = 0
count_ones_bytes (b ∷ bs) = byte_ones b 8 + count_ones_bytes bs

unfoldable pub count_ones : BitSlice → ℕ
count_ones self = count_ones_bytes self.bytes
