-- ===== src/Signature/Reader/Canonical.antt =====
-- What `read_from_section` and `parse_section` accept: exactly the sections that the macro writes.
use externref.Prelude.{
  ℕ, zero, suc, ◌+◌, ◌≤◌, ◌≡◌, ◌≢◌, refl, ap, subst, ◌∙◌, List, [], ◌∷◌, ◌++◌, append-nil,
  append_assoc, Option, some, ◌⊎◌, inl, inr, fault, length, length-append, All, IsByte, ok, err,
  ◌>>=◌, >>=-eq-ok, Str, text, arith,
}
use externref.Signature.Types.{BitSlice, FunctionKind, Function, ReadError, ReadResult}
use externref.Signature.Writer.Layout.{kind_bytes, section_bytes}
use externref.Signature.Reader.{
  length_for, read_u32, from_utf8, str_body, bits_body, read_kind, read_str, read_bits,
  read_from_section, parse_section, parse_section_loop,
}
use externref.Signature.Reader.Fields.{IsFunction}
use externref.Signature.Reader.Accepts.{str_bytes, read_kind-Read, read_str-Read, read_bits-Read}
use externref.Signature.Reader.RoundTrip.{sections, section_bytes_size, parse_section_loop_step}

ok_record :
    (k : FunctionKind) (n : Str) (b : BitSlice) (src : List ℕ) (f : Function) (rest : List ℕ)
    → ◌≡◌ {A = ReadResult (Function × List ℕ)}
        (ok (record { kind = k; name = n; externrefs = b }, src))
        (ok (f, rest))
    → (◌≡◌ {A = Function} (record { kind = k; name = n; externrefs = b }) f) × (src ≡ rest)
ok_record k n b src f rest e = (cc, cc)

-- Bytes that read are the section that `custom_section` writes for the signature that was read, followed by
-- the bytes that are left; and the signature is within the limits.
pub read_from_section-Read :
    (src : List ℕ) (f : Function) (rest : List ℕ)
    → All IsByte src
    → read_from_section src ≡ ok (f, rest)
    → (src ≡ section_bytes f ++ rest) × IsFunction f × All IsByte rest
unfolding read_from_section
read_from_section-Read src f rest h e =
    let ((k, s₁), e₁, t₁) = >>=-eq-ok (read_kind src) _ e in
    let (p₁, v₁, h₁) = read_kind-Read src k s₁ h e₁ in
    let ((n, s₂), e₂, t₂) = >>=-eq-ok (read_str s₁ (text "function name")) _ t₁ in
    let (p₂, v₂, h₂) = read_str-Read s₁ (text "function name") n s₂ h₁ e₂ in
    let ((b, s₃), e₃, t₃) = >>=-eq-ok (read_bits s₂ (text "externref bit slice")) _ t₂ in
    let (p₃, v₃, h₃) = read_bits-Read s₂ (text "externref bit slice") b s₃ h₂ e₃ in
    let (ef, er) = ok_record k n b s₃ f rest t₃ in
    subst (λ t. (src ≡ section_bytes t ++ rest) × IsFunction t × All IsByte rest) ef
      (subst
        (λ t.
          (src ≡ section_bytes (record { kind = k; name = n; externrefs = b }) ++ t)
          × IsFunction (record { kind = k; name = n; externrefs = b })
          × All IsByte t)
        er
        (
          p₁
              ∙ ap (λ (t : List ℕ). kind_bytes k ++ t)
                  (p₂ ∙ ap (λ (t : List ℕ). str_bytes n ++ t) p₃)
              ∙ simp append_assoc,
          record { kind = v₁; name = v₂; externrefs = v₃ },
          h₃,
        ))

module _ {A : Type 0} where
  bind_ne_fault :
      {B : Type 0} (m : ReadResult A) (f : A → ReadResult B)
      → m ≢ fault
      → ((a : A) → f a ≢ fault)
      → (m >>= f) ≢ fault
  bind_ne_fault (ok a) f h k = k a
  bind_ne_fault (err e) f h k = λ p. cc
  bind_ne_fault fault f h k = λ p. h refl

read_u32_ne_fault : (src : List ℕ) (c : Str) → read_u32 src c ≢ fault
unfolding read_u32
read_u32_ne_fault src c e = ground arith

str_body_ne_fault : (src : List ℕ) (n : ℕ) (c : Str) → str_body src n c ≢ fault
unfolding str_body from_utf8
str_body_ne_fault src n c e = ground arith

bits_body_ne_fault : (src : List ℕ) (n : ℕ) (c : Str) → bits_body src n c ≢ fault
unfolding bits_body
bits_body_ne_fault src n c e = ground arith

read_str_ne_fault : (src : List ℕ) (c : Str) → read_str src c ≢ fault
unfolding read_str
read_str_ne_fault src c =
    bind_ne_fault (read_u32 src (length_for c)) _ (read_u32_ne_fault src _)
      (λ r. str_body_ne_fault r.1 r.0 c)

read_bits_ne_fault : (src : List ℕ) (c : Str) → read_bits src c ≢ fault
unfolding read_bits
read_bits_ne_fault src c =
    bind_ne_fault (read_u32 src (length_for c)) _ (read_u32_ne_fault src _)
      (λ r. bits_body_ne_fault r.1 r.0 c)

read_kind_ne_fault : (src : List ℕ) → read_kind src ≢ fault
unfolding read_kind
read_kind_ne_fault src e = ground (arith, read_str_ne_fault src (text "module name"))

pub read_from_section_ne_fault : (src : List ℕ) → read_from_section src ≢ fault
unfolding read_from_section
read_from_section_ne_fault src = bind_ne_fault (read_kind src) _ (read_kind_ne_fault src) λ r.
    bind_ne_fault (read_str r.1 (text "function name")) _ (read_str_ne_fault r.1 _) λ s.
      bind_ne_fault (read_bits s.1 (text "externref bit slice")) _ (read_bits_ne_fault s.1 _)
        λ t e. cc

Outcome-cases :
    {A : Type 0} (r : ReadResult A)
    → r ≢ fault
    → ((a : A) × (r ≡ ok a)) ⊎ ((e : ReadError) × (r ≡ err e))
Outcome-cases (ok a) h = inl (a, refl)
Outcome-cases (err e) h = inr (e, refl)
Outcome-cases fault h = absurd (h refl)

abbrev Parsed : List ℕ → List Function → Option (ReadResult (List Function)) → Type 0
Parsed raw done r =
    ((fs : List Function) × (r ≡ some (ok (done ++ fs))) × (raw ≡ sections fs) × All IsFunction fs)
    ⊎ ((e : ReadError) × (r ≡ some (err e)))

Parsed-step :
    (fuel : ℕ) (raw rest : List ℕ) (done : List Function) (f : Function)
    → raw ≡ section_bytes f ++ rest
    → IsFunction f
    → parse_section_loop (suc fuel) raw done ≡ parse_section_loop fuel rest (done ++ (f ∷ []))
    → Parsed rest (done ++ (f ∷ [])) (parse_section_loop fuel rest (done ++ (f ∷ [])))
    → Parsed raw done (parse_section_loop (suc fuel) raw done)
Parsed-step fuel raw rest done f shape valid step (inl (fs, r, q, all)) = inl (
  f ∷ fs,
  step ∙ r ∙ ap (λ (t : List Function). some (ok t)) (append_assoc done (f ∷ []) fs),
  shape ∙ ap (λ (t : List ℕ). section_bytes f ++ t) q,
  (valid, all),
)
Parsed-step fuel raw rest done f shape valid step (inr (x, r)) = inr (x, step ∙ r)

parse_section_loop-Parsed :
    (fuel : ℕ) (raw : List ℕ) (done : List Function)
    → All IsByte raw
    → length raw ≤ fuel
    → Parsed raw done (parse_section_loop fuel raw done)
parse_section_loop-Parsed fuel [] done h enough =
    inl ([], unfold parse_section_loop in rw append-nil, refl, tt)
parse_section_loop-Parsed zero (b ∷ bs) done h enough = absurd (omega arith)
parse_section_loop-Parsed (suc fuel) (b ∷ bs) done h enough =
    elim (Outcome-cases (read_from_section (b ∷ bs)) (read_from_section_ne_fault (b ∷ bs))) [
      | inr (x, e) ↦ inr (x, unfold parse_section_loop in rw (parse_section_loop, e))
      | inl ((f, rest), e) ↦
          let (shape, valid, h') = read_from_section-Read (b ∷ bs) f rest h e in
          let len : suc (length bs) ≡ length (section_bytes f) + length rest =
            ap length shape ∙ length-append (section_bytes f) rest in
          let less : length rest ≤ fuel = omega (arith, section_bytes_size f) in
          Parsed-step fuel (b ∷ bs) rest done f shape valid
            (parse_section_loop_step fuel (b ∷ bs) done f rest (omega arith) e)
            (parse_section_loop-Parsed fuel rest (done ++ (f ∷ [])) h' less)
    ]

-- `parse_section` always answers: on any bytes it ends within its fuel and does not panic. It answers
-- either with signatures whose sections, one after the other, are the bytes it was given, or with an
-- error.
pub parse_section_cases :
    (raw : List ℕ)
    → All IsByte raw
    → ((fs : List Function) × (parse_section raw ≡ some (ok fs))
        × (raw ≡ sections fs)
        × All IsFunction fs)
      ⊎ ((e : ReadError) × (parse_section raw ≡ some (err e)))
unfolding parse_section
parse_section_cases raw h = parse_section_loop-Parsed (length raw) raw [] h (omega arith)
