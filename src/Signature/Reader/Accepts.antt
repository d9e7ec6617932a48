-- ===== src/Signature/Reader/Accepts.antt =====
-- What a reader accepts: the bytes of a field that reads are the bytes that the field is written as.
use externref.Prelude.{
  ℕ, zero, suc, ◌+◌, ◌/◌, ◌%◌, ◌^◌, ◌≤◌, ◌<◌, ◌≡◌, inl, inr, sym, ap, subst, ◌∙◌, true, false, List,
  [], ◌∷◌, ◌++◌, ltb, Bool-cases, length, length-take_le, take, drop, take-append-drop, All, IsByte,
  ok, >>=-eq-ok, Str, text, arith,
}
use externref.Signature.Types.{BitSlice, FunctionKind, export, import, ReadResult}
use externref.Signature.Utf8.{IsUtf8}
use externref.Signature.Writer.{u32_max}
use externref.Signature.Writer.Layout.{u32_bytes, kind_bytes}
use externref.Signature.Reader.{
  length_for, from_le_bytes, read_u32, from_utf8, read_str, str_body, read_bits, bits_body,
  starts_with_ff, read_kind,
}
use externref.Signature.Reader.Fields.{IsU32, IsName, IsBits, IsKind}

-- The buffer is what a field's value is written as, then the rest.
abbrev pub Read {ℓ} : {A : Type ℓ} → (A → List ℕ) → (A → Type 0) → List ℕ → A → List ℕ → Type 0
Read write Valid src a rest = (src ≡ write a ++ rest) × Valid a × All IsByte rest

le_bytes-IsU32 :
    (a b c d v : ℕ)
    → IsByte a
    → IsByte b
    → IsByte c
    → IsByte d
    → v ≡ from_le_bytes (a ∷ b ∷ c ∷ d ∷ [])
    → (a ≡ v % 256)
      × (b ≡ v / 2 ^ 8 % 256)
      × (c ≡ v / 2 ^ 16 % 256)
      × (d ≡ v / 2 ^ 24 % 256)
      × IsU32 v
le_bytes-IsU32 a b c d v ha hb hc hd e = omega arith

All-take-drop :
    (n : ℕ) (xs : List ℕ) → All IsByte xs → All IsByte (take n xs) × All IsByte (drop n xs)
All-take-drop zero xs h = (tt, h)
All-take-drop (suc n) [] h = (tt, tt)
All-take-drop (suc n) (x ∷ xs) h = let (t, d) = All-take-drop n xs h.1 in ((h.0, t), d)

pub read_u32-Read :
    (src : List ℕ) (c : Str) (v : ℕ) (rest : List ℕ)
    → All IsByte src
    → read_u32 src c ≡ ok (v, rest)
    → Read u32_bytes IsU32 src v rest
unfolding read_u32
read_u32-Read [] c v rest h e = cc
read_u32-Read (_ ∷ []) c v rest h e = cc
read_u32-Read (_ ∷ (_ ∷ [])) c v rest h e = cc
read_u32-Read (_ ∷ (_ ∷ (_ ∷ []))) c v rest h e = cc
read_u32-Read (b₀ ∷ (b₁ ∷ (b₂ ∷ (b₃ ∷ bs)))) c v rest h e =
    let long : ltb (length (b₀ ∷ (b₁ ∷ (b₂ ∷ (b₃ ∷ bs))))) 4 ≡ false = ground arith in
    let e' : ◌≡◌ {A = ReadResult (ℕ × List ℕ)} (ok (from_le_bytes (b₀ ∷ b₁ ∷ b₂ ∷ b₃ ∷ []), bs))
        (ok (v, rest)) =
      rw long at e in
    let (e₀, e₁, e₂, e₃, fits) = le_bytes-IsU32 b₀ b₁ b₂ b₃ v h.0 h.1.0 h.1.1.0 h.1.1.1.0 (cc) in
    let same : bs ≡ rest = cc in (cc, fits, rw same at h.1.1.1.1)

abbrev pub str_bytes : Str → List ℕ
str_bytes s = u32_bytes (length s % 2 ^ 32) ++ s

-- The end of `read_str` and of `read_bits`: so many bytes are there, and they are the value.
str_end :
    (src : List ℕ) (len : ℕ) (c s rest : List ℕ)
    → str_body src len c ≡ ok (s, rest)
    → (len ≤ length src) × IsUtf8 s × (s ≡ take len src) × (rest ≡ drop len src)
unfolding str_body from_utf8
str_end src len c s rest e = ground arith

split_at :
    (len : ℕ) (src s rest : List ℕ)
    → len ≤ length src
    → s ≡ take len src
    → rest ≡ drop len src
    → (src ≡ s ++ rest) × (length s ≡ len)
split_at len src s rest h es er =
    (rw (es, er) (sym (take-append-drop len src)), rw es (length-take_le len src h))

pub read_str-Read :
    (src : List ℕ) (c : Str) (s : Str) (rest : List ℕ)
    → All IsByte src
    → read_str src c ≡ ok (s, rest)
    → Read str_bytes IsName src s rest
unfolding read_str
read_str-Read src c s rest h e =
    let ((len, src'), e₁, e₂) = >>=-eq-ok (read_u32 src (length_for c)) _ e in
    let (shape, fits, h') = read_u32-Read src (length_for c) len src' h e₁ in
    let (long, valid, es, er) = str_end src' len c s rest e₂ in
    let (split, same) = split_at len src' s rest long es er in
    let (front, back) = All-take-drop len src' h' in
    let small : len ≡ length s % 2 ^ 32 = omega arith in
    (
      shape
          ∙ ap (λ (t : List ℕ). u32_bytes len ++ t) split
          ∙ ap (λ (k : ℕ). u32_bytes k ++ (s ++ rest)) small,
      record { fits = rw same fits; is_utf8 = valid; bytes = rw es front },
      rw er back,
    )

abbrev pub bits_bytes : BitSlice → List ℕ
bits_bytes s = u32_bytes (s.bit_len % 2 ^ 32) ++ s.bytes

bits_end :
    (src : List ℕ) (n : ℕ) (s : BitSlice) (rest c : List ℕ)
    → bits_body src n c ≡ ok (s, rest)
    → ((n + 7) / 8 ≤ length src)
      × (s.bit_len ≡ n)
      × (s.bytes ≡ take ((n + 7) / 8) src)
      × (rest ≡ drop ((n + 7) / 8) src)
unfolding bits_body
bits_end src n s rest c e = ground arith

pub read_bits-Read :
    (src : List ℕ) (c : Str) (s : BitSlice) (rest : List ℕ)
    → All IsByte src
    → read_bits src c ≡ ok (s, rest)
    → Read bits_bytes IsBits src s rest
unfolding read_bits
read_bits-Read src c s rest h e =
    let ((n, src'), e₁, e₂) = >>=-eq-ok (read_u32 src (length_for c)) _ e in
    let (shape, fits, h') = read_u32-Read src (length_for c) n src' h e₁ in
    let (long, len, es, er) = bits_end src' n s rest c e₂ in
    let (split, same) = split_at ((n + 7) / 8) src' s.bytes rest long es er in
    let (front, back) = All-take-drop ((n + 7) / 8) src' h' in
    let small : n ≡ s.bit_len % 2 ^ 32 = omega arith in
    (
      shape
          ∙ ap (λ (t : List ℕ). u32_bytes n ++ t) split
          ∙ ap (λ (k : ℕ). u32_bytes k ++ (s.bytes ++ rest)) small,
      record { fits = rw len fits; byte_len = rw len same; bytes = rw es front },
      rw er back,
    )

kind_end :
    (m : Str) (src rest : List ℕ) (k : FunctionKind)
    → ◌≡◌ {A = ReadResult (FunctionKind × List ℕ)} (ok (import m, src)) (ok (k, rest))
    → (import m ≡ k) × (src ≡ rest)
kind_end m src rest k e = (cc, cc)

ff_bytes : (src : List ℕ) → starts_with_ff src ≡ true → src ≡ u32_bytes u32_max ++ drop 4 src
ff_bytes [] h = cc
ff_bytes (_ ∷ []) h = cc
ff_bytes (_ ∷ (_ ∷ [])) h = cc
ff_bytes (_ ∷ (_ ∷ (_ ∷ []))) h = cc
ff_bytes (a ∷ (b ∷ (c ∷ (d ∷ bs)))) h = ground arith

not_ff_len :
    (v : ℕ) (rest : List ℕ) → IsU32 v → starts_with_ff (u32_bytes v ++ rest) ≡ false → v < u32_max
not_ff_len v rest fits h = ground arith

pub read_kind-Read :
    (src : List ℕ) (k : FunctionKind) (rest : List ℕ)
    → All IsByte src
    → read_kind src ≡ ok (k, rest)
    → Read kind_bytes IsKind src k rest
unfolding read_kind
read_kind-Read src k rest h e = elim (Bool-cases (starts_with_ff src)) [
  | inl marked ↦ export_read (rw marked at e) (ff_bytes src marked)
  | inr other ↦
      let ((m, src'), e₁, e₂) = >>=-eq-ok (read_str src (text "module name")) _ (rw other at e) in
      let (shape, name, h') = read_str-Read src _ m src' h e₁ in
      let (ek, er) = kind_end m src' rest k e₂ in
      let short : length m % 2 ^ 32 < u32_max =
        not_ff_len _ (m ++ src') (omega arith)
          (subst (λ t. starts_with_ff t ≡ false) shape other) in
      subst (λ t. Read kind_bytes IsKind src t rest) ek
        (subst (λ t. Read kind_bytes IsKind src (import m) t) er
          (shape, (name, omega (arith, name.fits)), h'))
]
  where
    export_read :
        ◌≡◌ {A = ReadResult (FunctionKind × List ℕ)} (ok (export, drop 4 src)) (ok (k, rest))
        → src ≡ u32_bytes u32_max ++ drop 4 src
        → Read kind_bytes IsKind src k rest
    export_read e shape =
        let ek : export ≡ k = cc in
        let er : drop 4 src ≡ rest = cc in
        subst (λ t. Read kind_bytes IsKind src t rest) ek
          (subst (λ t. Read kind_bytes IsKind src export t) er
            (shape, tt, (All-take-drop 4 src h).1))
