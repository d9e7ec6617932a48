-- ===== src/Signature/Bits/Builder.antt =====
-- What a slice built by `with_set_bit` holds, and that building and reading it never panics.
use externref.Prelude.{
  ℕ, zero, suc, ◌+◌, ◌-◌, ◌*◌, ◌/◌, ◌%◌, ◌<◌, ◌≡◌, ◌≢◌, refl, sym, Bool, false, ◌||◌, ◌∙◌, ap, ap₂,
  ◌==◌, lt→ltb, le→ltb, le→leb, List, [], ◌∷◌, All, length, get_elem?, set, replicate,
  get_elem?-set_self, get_elem?-set_ne, get_elem?-some, length-set, length-replicate, IsByte, some,
  Bool-cases, inl, inr, ==_refl, ne→==, ==→eq, arith, Checked, ok,
}
use externref.Signature.Types.{BitSlice, BitSliceBuilder}
use externref.Signature.Bits.{index, builder, set_bit, test_bit, with_set_bit, build, is_set}
use externref.Signature.Bits.Bytes.{test_bit-set_bit, set_bit-IsByte, test_bit-zero}

-- The bytes hold the bits and no whole byte more.
pub record Fits (bytes : List ℕ) (bit_len : ℕ) : Type 0 where
  pub bytes_len : length bytes ≡ (bit_len + 7) / 8
  pub all_bytes : All IsByte bytes

All-set : (xs : List ℕ) (i v : ℕ) → All IsByte xs → IsByte v → All IsByte (set xs i v)
All-set [] i v h hv = h
All-set (x ∷ xs) zero v h hv = (hv, h.1)
All-set (x ∷ xs) (suc i) v h hv = (h.0, All-set xs i v h.1 hv)

get_elem?-replicate : (n i v : ℕ) → i < n → get_elem? (replicate n v) i ≡ some v
get_elem?-replicate zero i v h = elim h [ ]
get_elem?-replicate (suc n) zero v h = refl
get_elem?-replicate (suc n) (suc i) v h = get_elem?-replicate n i v (omega arith)

ok_injective : {a b : Bool} → ◌≡◌ {A = Checked Bool} (ok a) (ok b) → a ≡ b
ok_injective e = cc

same_byte : (i j : ℕ) → i / 8 ≡ j / 8 → (i % 8 == j % 8) ≡ (i == j)
same_byte i j h = ground arith

All-get : (xs : List ℕ) (i b : ℕ) → All IsByte xs → get_elem? xs i ≡ some b → IsByte b
All-get [] i b h e = cc
All-get (x ∷ xs) zero b h e = rw (← some_injective e) h.0
  where
    some_injective : {x y : ℕ} → some x ≡ some y → x ≡ y
    some_injective e = cc
All-get (x ∷ xs) (suc i) b h e = All-get xs i b h.1 e

All-replicate : (n : ℕ) → All IsByte (replicate n 0)
All-replicate zero = tt
All-replicate (suc n) = (omega arith, All-replicate n)

-- The byte in which bit `j` of a fitting slice lies.
IsByte-get_elem? :
    (bytes : List ℕ) (bit_len j : ℕ)
    → Fits bytes bit_len
    → j < bit_len
    → (b : ℕ) × (get_elem? bytes (j / 8) ≡ some b) × IsByte b
IsByte-get_elem? bytes bit_len j fits h =
    let inside : j / 8 < length bytes = rw fits.bytes_len (omega arith) in
    let (b, e) = get_elem?-some bytes (j / 8) inside in
    (b, e, All-get bytes (j / 8) b fits.all_bytes e)

-- `is_set` inside of the slice.
pub is_set_inside :
    (s : BitSlice) (j b : ℕ)
    → j < s.bit_len
    → get_elem? s.bytes (j / 8) ≡ some b
    → is_set s j ≡ ok (test_bit b (j % 8))
unfolding is_set
is_set_inside s j b h e = rw (le→ltb s.bit_len j (omega arith), index, e)

-- Reading a bit of a fitting slice never panics.
pub is_set-ok :
    (s : BitSlice) (j : ℕ)
    → Fits s.bytes s.bit_len
    → j < s.bit_len
    → (v : Bool) × (is_set s j ≡ ok v)
is_set-ok s j fits h =
    let (b, e, hb) = IsByte-get_elem? s.bytes s.bit_len j fits h in
    (test_bit b (j % 8), is_set_inside s j b h e)

module _ (s : BitSliceBuilder) (i b : ℕ) (e : get_elem? s.bytes (i / 8) ≡ some b)
    (h : i < s.bit_len) where
  abbrev changed : BitSliceBuilder
  changed = record s { bytes = set s.bytes (i / 8) (set_bit b (i % 8)) }

  with_set_bit-changed : with_set_bit s i ≡ ok changed
  unfolding with_set_bit
  with_set_bit-changed = rw (lt→ltb i s.bit_len h, index, e)

  changed-Fits : Fits s.bytes s.bit_len → Fits changed.bytes changed.bit_len
  changed-Fits fits = record {
    bytes_len = length-set s.bytes (i / 8) _ ∙ fits.bytes_len;
    all_bytes =
        All-set s.bytes (i / 8) _ fits.all_bytes
          (set_bit-IsByte b (i % 8) (All-get s.bytes (i / 8) b fits.all_bytes e) (omega arith));
  }

  -- The bit that was set, a bit of the same byte, a bit of another byte.
  is_set-changed :
      (j : ℕ) (v : Bool)
      → Fits s.bytes s.bit_len
      → j < s.bit_len
      → is_set (build s) j ≡ ok v
      → is_set (build changed) j ≡ ok ((i == j) || v)
  unfolding build
  is_set-changed j v fits hj ev = elim (Bool-cases (i / 8 == j / 8)) [
    | inl same ↦
        let at : j / 8 ≡ i / 8 = sym (==→eq (i / 8) (j / 8) same) in
        let inside : i / 8 < length s.bytes = rw fits.bytes_len (omega arith) in
        let hb : IsByte b = All-get s.bytes (i / 8) b fits.all_bytes e in
        let old : is_set (build s) j ≡ ok (test_bit b (j % 8)) =
          is_set_inside (build s) j b hj (rw at e) in
        is_set_inside (build changed) j (set_bit b (i % 8)) hj
          (rw at (get_elem?-set_self s.bytes (i / 8) _ inside))
        ∙ ap ok (
            test_bit-set_bit b (i % 8) (j % 8) hb (omega arith) (omega arith)
            ∙ ap₂ ◌||◌ (same_byte i j (sym at)) (ok_injective (sym old ∙ ev)))
    | inr other ↦
        let apart : i / 8 ≢ j / 8 =
          λ q. cc (other, ap (λ (k : ℕ). i / 8 == k) (sym q), ==_refl (i / 8)) in
        let (c, ec, hc) = IsByte-get_elem? s.bytes s.bit_len j fits hj in
        is_set_inside (build changed) j c hj (get_elem?-set_ne s.bytes (i / 8) (j / 8) _ apart ∙ ec)
        ∙ ap ok (
            ok_injective (sym (is_set_inside (build s) j c hj ec) ∙ ev)
            ∙ sym (ap (λ (t : Bool). t || v) (ne→== i j (λ q. apart (ap (λ (k : ℕ). k / 8) q)))))
  ]

-- Setting a bit of a fitting builder never panics, and a reading afterwards finds that bit set and
-- every other bit as it was.
pub is_set-with_set_bit :
    (s : BitSliceBuilder) (i : ℕ)
    → Fits s.bytes s.bit_len
    → i < s.bit_len
    → (t : BitSliceBuilder) × (with_set_bit s i ≡ ok t)
      × Fits t.bytes t.bit_len
      × (t.bit_len ≡ s.bit_len)
      × ((j : ℕ) (v : Bool)
          → j < s.bit_len
          → is_set (build s) j ≡ ok v
          → is_set (build t) j ≡ ok ((i == j) || v))
is_set-with_set_bit s i fits h =
    let (b, e, hb) = IsByte-get_elem? s.bytes s.bit_len i fits h in
    (
      changed s i b e h,
      with_set_bit-changed s i b e h,
      changed-Fits s i b e h fits,
      refl,
      λ j v hj ev. is_set-changed s i b e h j v fits hj ev,
    )

-- A new builder that passes the assertions is all zeros.
pub builder_lem :
    (n bit_len : ℕ)
    → (n ≡ (bit_len + 7) / 8)
    → 0 < bit_len
    → (t : BitSliceBuilder) × (builder n bit_len ≡ ok t)
      × Fits t.bytes t.bit_len
      × (t.bit_len ≡ bit_len)
      × ((j : ℕ) → j < bit_len → is_set (build t) j ≡ ok false)
unfolding builder build
builder_lem n bit_len hn h = (
  record { bytes = replicate n 0; bit_len = bit_len },
  rw (
    lt→ltb 0 n (omega arith),
    lt→ltb ((n - 1) * 8) bit_len (omega arith),
    le→leb bit_len (n * 8) (omega arith),
  ),
  record { bytes_len = length-replicate n 0 ∙ hn; all_bytes = All-replicate n },
  refl,
  λ j hj.
      is_set_inside _ j 0 hj (get_elem?-replicate n (j / 8) 0 (omega arith))
      ∙ ap ok (test_bit-zero (j % 8) (omega arith)),
)
