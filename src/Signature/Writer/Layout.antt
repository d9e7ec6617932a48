-- ===== src/Signature/Writer/Layout.antt =====
-- What `custom_section` writes: the fields one after the other.
use externref.Prelude.{
  ℕ, zero, suc, ◌+◌, ◌/◌, ◌%◌, ◌^◌, ◌≡◌, refl, sym, ap, ap₂, subst, ◌∙◌, List, [], ◌∷◌, ◌++◌,
  lt→ltb, ==_refl, length, length-append, length-replicate, set, replicate, append_assoc,
  append-nil, ok, arith,
}
use externref.Signature.Types.{FunctionKind, export, import, Function}
use externref.Signature.Writer.{
  put, write_u32, copy_bytes, kind_len_in_custom_section, u32_max, write_kind, custom_section_len,
  custom_section,
}

-- The four bytes of a number, lowest first.
abbrev pub u32_bytes : ℕ → List ℕ
u32_bytes v = (v % 256) ∷ (v / 2 ^ 8 % 256) ∷ (v / 2 ^ 16 % 256) ∷ (v / 2 ^ 24 % 256) ∷ []

abbrev pub kind_bytes : FunctionKind → List ℕ
kind_bytes export = u32_bytes u32_max
kind_bytes (import m) = u32_bytes (length m % 2 ^ 32) ++ m

-- The section's layout: kind, name, bits; each list behind its length.
abbrev pub section_bytes : Function → List ℕ
section_bytes f =
    kind_bytes f.kind
    ++ (u32_bytes (length f.name % 2 ^ 32)
        ++ (f.name ++ (u32_bytes (f.externrefs.bit_len % 2 ^ 32) ++ f.externrefs.bytes)))

set-append_length :
    (pre : List ℕ) (x b : ℕ) (post : List ℕ)
    → set (pre ++ (x ∷ post)) (length pre) b ≡ pre ++ (b ∷ post)
set-append_length [] x b post = refl
set-append_length (y ∷ pre) x b post = ap (◌∷◌ y) (set-append_length pre x b post)

-- A buffer is what was written and what is still to be: one write moves the border.
put_lem :
    (done : List ℕ) (x b : ℕ) (todo : List ℕ) (pos : ℕ)
    → pos ≡ length done
    → put (done ++ (x ∷ todo)) pos b ≡ ok ((done ++ (b ∷ [])) ++ todo)
unfolding put
put_lem done x b todo pos h =
    rw
      (
        h,
        lt→ltb (length done) (length (done ++ (x ∷ todo))) (rw length-append (omega arith)),
        set-append_length done x b todo,
      )
      (ap ok (sym (append_assoc done (b ∷ []) todo)))

abbrev zeros : ℕ → List ℕ
zeros n = replicate n 0

abbrev snoc : List ℕ → ℕ → List ℕ
snoc xs x = xs ++ (x ∷ [])

length-snoc : (xs : List ℕ) (x : ℕ) → length (snoc xs x) ≡ length xs + 1
length-snoc xs x = length-append xs (x ∷ [])

copy_bytes_lem :
    (bs done room todo : List ℕ) (pos : ℕ)
    → pos ≡ length done
    → length room ≡ length bs
    → copy_bytes (done ++ (room ++ todo)) pos bs ≡ ok ((done ++ bs) ++ todo, pos + length bs)
unfolding copy_bytes
copy_bytes_lem [] done [] todo pos h len =
    ap₂ (λ (xs : List ℕ) (q : ℕ). ok (xs ++ todo, q)) (sym (append-nil done)) (omega arith)
copy_bytes_lem [] done (r ∷ room) todo pos h len = absurd (omega arith)
copy_bytes_lem (b ∷ bs) done [] todo pos h len = absurd (omega arith)
copy_bytes_lem (b ∷ bs) done (r ∷ room) todo pos h len =
    rw (put_lem done r b (room ++ todo) pos h) (
      copy_bytes_lem bs (snoc done b) room todo (pos + 1) (omega (arith, length-snoc done b))
        (omega arith)
      ∙ ap₂ (λ (xs : List ℕ) (q : ℕ). ok (xs ++ todo, q)) (append_assoc done (b ∷ []) bs)
          (omega arith))

write_u32_lem :
    (done todo : List ℕ) (v pos : ℕ)
    → pos ≡ length done
    → write_u32 (done ++ (zeros 4 ++ todo)) v pos ≡ ok ((done ++ u32_bytes v) ++ todo)
unfolding write_u32
write_u32_lem done todo v pos h =
    let d₁ = snoc done (v % 256) in
    let d₂ = snoc d₁ (v / 2 ^ 8 % 256) in
    let d₃ = snoc d₂ (v / 2 ^ 16 % 256) in
    rw
      (
        put_lem done 0 (v % 256) (zeros 3 ++ todo) pos h,
        put_lem d₁ 0 (v / 2 ^ 8 % 256) (zeros 2 ++ todo) (pos + 1)
            (omega (arith, length-snoc done (v % 256))),
        put_lem d₂ 0 (v / 2 ^ 16 % 256) (zeros 1 ++ todo) (pos + 2)
            (omega (arith, length-snoc done (v % 256), length-snoc d₁ (v / 2 ^ 8 % 256))),
        put_lem d₃ 0 (v / 2 ^ 24 % 256) todo (pos + 3) (
            omega (
              arith,
              length-snoc done (v % 256),
              length-snoc d₁ (v / 2 ^ 8 % 256),
              length-snoc d₂ (v / 2 ^ 16 % 256),
            )),
      )
      (simp append_assoc)

zeros-add : (n m : ℕ) → zeros (n + m) ≡ zeros n ++ zeros m
zeros-add zero m = ap zeros (omega arith)
zeros-add (suc n) m =
    subst (λ (k : ℕ). zeros k ≡ 0 ∷ (zeros n ++ zeros m)) {x = suc (n + m)} (omega arith)
      (ap (◌∷◌ 0) (zeros-add n m))

kind_room : FunctionKind → List ℕ
kind_room k = zeros (kind_len_in_custom_section k)

write_kind_lem :
    (k : FunctionKind) (todo : List ℕ)
    → write_kind k (kind_room k ++ todo) ≡ ok (kind_bytes k ++ todo, length (kind_bytes k))
unfolding write_kind kind_len_in_custom_section kind_room
write_kind_lem export todo = rw (write_u32_lem [] todo u32_max 0 refl)
write_kind_lem (import m) todo =
    rw
      (
        zeros-add 4 (length m),
        append_assoc (zeros 4) (zeros (length m)) todo,
        write_u32_lem [] (zeros (length m) ++ todo) (length m % 2 ^ 32) 0 refl,
      )
      (copy_bytes_lem m (u32_bytes (length m % 2 ^ 32)) (zeros (length m)) todo 4 refl
          (length-replicate _ 0)
        ∙ ap (λ (q : ℕ). ok (kind_bytes (import m) ++ todo, q)) (omega arith))

length-kind_bytes : (k : FunctionKind) → length (kind_bytes k) ≡ kind_len_in_custom_section k
unfolding kind_len_in_custom_section
length-kind_bytes export = refl
length-kind_bytes (import m) = omega arith

-- The buffer before anything is written.
abbrev rooms : FunctionKind → ℕ → ℕ → List ℕ
rooms k n m = kind_room k ++ (zeros 4 ++ (zeros n ++ (zeros 4 ++ (zeros m ++ []))))

zeros-rooms :
    (k : FunctionKind) (n m : ℕ)
    → zeros (kind_len_in_custom_section k + 4 + n + 4 + m) ≡ rooms k n m
unfolding kind_room
zeros-rooms k n m =
    let l : ℕ = kind_len_in_custom_section k in
    ap zeros (omega arith)
    ∙ zeros-add l (4 + (n + (4 + m)))
    ∙ ap (λ (t : List ℕ). zeros l ++ t)
        (zeros-add 4 (n + (4 + m))
          ∙ ap (λ (t : List ℕ). zeros 4 ++ t)
              (zeros-add n (4 + m)
                ∙ ap (λ (t : List ℕ). zeros n ++ t)
                    (zeros-add 4 m
                      ∙ ap (λ (t : List ℕ). zeros 4 ++ t) (sym (append-nil (zeros m))))))

-- On every signature `custom_section`, given the length that `custom_section_len` computes, writes the
-- whole buffer without a panic, and the buffer is the fields one after the other.
pub custom_section-section_bytes :
    (f : Function) → custom_section (custom_section_len f) f ≡ ok (section_bytes f)
unfolding custom_section custom_section_len
custom_section-section_bytes f =
    let name_len : ℕ = length f.name % 2 ^ 32 in
    let bit_len : ℕ = f.externrefs.bit_len % 2 ^ 32 in
    let bits : List ℕ = f.externrefs.bytes in
    let d₁ : List ℕ = kind_bytes f.kind in
    let d₂ : List ℕ = d₁ ++ u32_bytes name_len in
    let d₃ : List ℕ = d₂ ++ f.name in
    let d₄ : List ℕ = d₃ ++ u32_bytes bit_len in
    rw
      (
        ==_refl (kind_len_in_custom_section f.kind + 4 + length f.name + 4 + length bits),
        zeros-rooms f.kind (length f.name) (length bits),
        write_kind_lem f.kind
            (zeros 4 ++ (zeros (length f.name) ++ (zeros 4 ++ (zeros (length bits) ++ [])))),
        write_u32_lem d₁ (zeros (length f.name) ++ (zeros 4 ++ (zeros (length bits) ++ [])))
            name_len (length d₁) refl,
        copy_bytes_lem f.name d₂ (zeros (length f.name)) (zeros 4 ++ (zeros (length bits) ++ []))
            (length d₁ + 4) (omega (arith, length-append d₁ (u32_bytes name_len)))
            (length-replicate _ 0),
        write_u32_lem d₃ (zeros (length bits) ++ []) bit_len (length d₁ + 4 + length f.name)
            (omega (arith, length-append d₁ (u32_bytes name_len), length-append d₂ f.name)),
        copy_bytes_lem bits d₄ (zeros (length bits)) [] (length d₁ + 4 + length f.name + 4)
            (omega (
              arith,
              length-append d₁ (u32_bytes name_len),
              length-append d₂ f.name,
              length-append d₃ (u32_bytes bit_len),
            ))
            (length-replicate _ 0),
      )
      (simp (append_assoc, append-nil))

pub length-section_bytes : (f : Function) → length (section_bytes f) ≡ custom_section_len f
unfolding custom_section_len
length-section_bytes f =
    let tail : List ℕ = u32_bytes (f.externrefs.bit_len % 2 ^ 32) ++ f.externrefs.bytes in
    omega (
      arith,
      length-kind_bytes f.kind,
      length-append f.name tail,
      length-append (kind_bytes f.kind) (u32_bytes (length f.name % 2 ^ 32) ++ (f.name ++ tail)),
    )
