-- ===== src/Signature/Bits/Indices.antt =====
-- The indexes of the set bits of a slice, against the list of bits that were set.
use externref.Prelude.{
  ℕ, zero, suc, ◌+◌, ◌/◌, ◌%◌, ◌≤◌, ◌<◌, ◌≡◌, refl, ap, ◌∙◌, Bool, false, ◌||◌, ◌==◌, le→ltb,
  lt→ltb, if◌then◌else◌, List, [], ◌∷◌, All, get_elem?, get_elem?-none, arith, ok, fault, ◌>>=◌,
  none, or_false,
}
use externref.Signature.Types.{BitSlice, BitSliceBuilder}
use externref.Signature.Bits.{
  index, builder, with_set_bits, build, is_set, set_indices, set_indices_from,
}
use externref.Signature.Bits.Builder.{Fits, is_set-with_set_bit, builder_lem}

-- The numbers from `lo` on, `n` of them, that pass a test.
unfoldable pub select : (ℕ → Bool) → ℕ → ℕ → List ℕ
select p lo zero = []
select p lo (suc n) = let rest = select p (lo + 1) n in if p lo then lo ∷ rest else rest

unfoldable pub marked : List ℕ → ℕ → Bool
marked [] j = false
marked (i ∷ is) j = (i == j) || marked is j

-- A slice shows a test if each of its bits is the test's answer.
abbrev pub Shows : BitSlice → (ℕ → Bool) → Type 0
Shows s p = (j : ℕ) → j < s.bit_len → is_set s j ≡ ok (p j)

set_indices_from-select :
    (s : BitSlice) (p : ℕ → Bool) (lo n : ℕ)
    → Shows s p
    → lo + n ≤ s.bit_len
    → set_indices_from s lo n ≡ ok (select p lo n)
unfolding set_indices_from select
set_indices_from-select s p lo zero h fits = refl
set_indices_from-select s p lo (suc n) h fits =
    rw (h lo (omega arith), set_indices_from-select s p (lo + 1) n h (omega arith))

pub set_indices-select :
    (s : BitSlice) (p : ℕ → Bool) → Shows s p → set_indices s ≡ ok (select p 0 s.bit_len)
unfolding set_indices
set_indices-select s p h = set_indices_from-select s p 0 s.bit_len h (omega arith)

or_regroup : (a b c : Bool) → (b || (a || c)) ≡ ((a || b) || c)
or_regroup a b c = ground arith

-- Setting several bits, whatever the slice showed before.
pub with_set_bits_lem :
    (is : List ℕ) (s : BitSliceBuilder) (p : ℕ → Bool)
    → Fits s.bytes s.bit_len
    → Shows (build s) p
    → All (λ i. i < s.bit_len) is
    → (t : BitSliceBuilder) × (with_set_bits is s ≡ ok t)
      × Fits t.bytes t.bit_len
      × (t.bit_len ≡ s.bit_len)
      × Shows (build t) (λ j. marked is j || p j)
unfolding with_set_bits marked build
with_set_bits_lem [] s p fits h all = (s, refl, fits, refl, h)
with_set_bits_lem (i ∷ is) s p fits h all =
    let (t, step, fits', len, seen) = is_set-with_set_bit s i fits all.0 in
    let shows : Shows (build t) (λ j. (i == j) || p j) =
      λ j hj. let hj' : j < s.bit_len = rw (← len) hj in seen j (p j) hj' (h j hj') in
    let all' : All (λ k. k < t.bit_len) is = rw len all.1 in
    let (u, steps, fits'', len', seen') = with_set_bits_lem is t _ fits' shows all' in
    (u, rw step steps, fits'', len' ∙ len, λ j hj. seen' j hj ∙ ap ok (or_regroup (i == j) _ (p j)))

-- For a bit length that is not 0, with the bytes that it needs, and indexes below it: `BitSlice::builder` and
-- a chain of `with_set_bit` calls do not panic, and the slice lists exactly the indexes that were set, in
-- increasing order and each once.
pub set_indices-with_set_bits :
    (n bit_len : ℕ) (is : List ℕ)
    → n ≡ (bit_len + 7) / 8
    → 0 < bit_len
    → All (λ i. i < bit_len) is
    → (t : BitSliceBuilder) × ((builder n bit_len >>= with_set_bits is) ≡ ok t)
      × Fits t.bytes t.bit_len
      × (t.bit_len ≡ bit_len)
      × (set_indices (build t) ≡ ok (select (marked is) 0 bit_len))
unfolding build
set_indices-with_set_bits n bit_len is hn h all =
    let (s, made, fits, len, zeros) = builder_lem n bit_len hn h in
    let blank : Shows (build s) (λ j. false) = λ j hj. zeros j (rw (← len) hj) in
    let (t, steps, fits', len', seen) = with_set_bits_lem is s _ fits blank (rw len all) in
    let shows : Shows (build t) (marked is) = λ j hj. seen j hj ∙ ap ok (or_false (marked is j)) in
    (
      t,
      rw made steps,
      fits',
      len' ∙ len,
      set_indices-select (build t) _ shows ∙ ap (λ k. ok (select (marked is) 0 k)) (len' ∙ len),
    )

-- If the bits of a fitting slice fill whole bytes, then `is_set` panics at the index one past the end,
-- and it answers `false` at every larger index.
pub is_set_at_end :
    (s : BitSlice) (k : ℕ)
    → Fits s.bytes s.bit_len
    → s.bit_len % 8 ≡ 0
    → (is_set s s.bit_len ≡ fault) × (is_set s (s.bit_len + suc k) ≡ ok false)
unfolding is_set
is_set_at_end s k fits h =
    let beyond : get_elem? s.bytes (s.bit_len / 8) ≡ none =
      get_elem?-none s.bytes _ (rw fits.bytes_len (omega arith)) in
    (
      rw (le→ltb s.bit_len s.bit_len (omega arith), index, beyond),
      rw (lt→ltb s.bit_len (s.bit_len + suc k) (omega arith)),
    )
