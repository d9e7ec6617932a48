-- ===== src/Signature/Reader/RoundTrip.antt =====
-- What the macro wrote, the processor reads back.
use externref.Prelude.{
  ℕ, zero, suc, ◌%◌, ◌^◌, ◌≤◌, ◌<◌, ◌≡◌, refl, ap, ◌∙◌, List, [], ◌∷◌, ◌++◌, append-nil,
  append_assoc, some, length, length-append, All, ok, text, arith,
}
use externref.Signature.Types.{Function}
use externref.Signature.Writer.Layout.{u32_bytes, kind_bytes, section_bytes, length-section_bytes}
use externref.Signature.Writer.{custom_section, custom_section_len, kind_len_in_custom_section}
use externref.Signature.Writer.Layout.{custom_section-section_bytes}
use externref.Signature.Reader.{read_from_section, parse_section, parse_section_loop}
use externref.Signature.Reader.Fields.{IsFunction, read_kind-bytes, read_str-bytes, read_bits-bytes}

pub read_from_section-bytes :
    (f : Function) (rest : List ℕ)
    → IsFunction f
    → read_from_section (section_bytes f ++ rest) ≡ ok (f, rest)
unfolding read_from_section
read_from_section-bytes f rest h =
    let bits : List ℕ = u32_bytes (f.externrefs.bit_len % 2 ^ 32) ++ (f.externrefs.bytes ++ rest) in
    let name : List ℕ = u32_bytes (length f.name % 2 ^ 32) ++ (f.name ++ bits) in
    rw (
      regroup f rest,
      read_kind-bytes f.kind name h.kind,
      read_str-bytes f.name bits (text "function name") h.name,
      read_bits-bytes f.externrefs rest (text "externref bit slice") h.externrefs,
    )
  where
    regroup :
        (f : Function) (rest : List ℕ)
        → section_bytes f ++ rest
          ≡ kind_bytes f.kind
            ++ (u32_bytes (length f.name % 2 ^ 32)
                ++ (f.name
                    ++ (u32_bytes (f.externrefs.bit_len % 2 ^ 32) ++ (f.externrefs.bytes ++ rest))))
    regroup f rest = simp append_assoc

-- A signature within the limits of its fields is read back from the section that `custom_section` wrote
-- for it, whatever bytes follow, and those are left in the buffer.
pub read_from_section-custom_section :
    (f : Function) (section rest : List ℕ)
    → IsFunction f
    → custom_section (custom_section_len f) f ≡ ok section
    → read_from_section (section ++ rest) ≡ ok (f, rest)
read_from_section-custom_section f section rest h e =
    let same : section_bytes f ≡ section = cc (custom_section-section_bytes f) in
    rw (← same) (read_from_section-bytes f rest h)

-- The sections of several signatures, as the linker joins them.
abbrev pub sections : List Function → List ℕ
sections [] = []
sections (f ∷ fs) = section_bytes f ++ sections fs

-- A section is never empty: its three lengths take four bytes each.
pub section_bytes_size : (f : Function) → 12 ≤ length (section_bytes f)
unfolding custom_section_len kind_len_in_custom_section
section_bytes_size f = ground (arith, length-section_bytes f)

pub parse_section_loop_step :
    (fuel : ℕ) (src : List ℕ) (fs : List Function) (f : Function) (rest : List ℕ)
    → 0 < length src
    → read_from_section src ≡ ok (f, rest)
    → parse_section_loop (suc fuel) src fs ≡ parse_section_loop fuel rest (fs ++ (f ∷ []))
unfolding parse_section_loop
parse_section_loop_step fuel [] fs f rest h e = absurd (omega arith)
parse_section_loop_step fuel (b ∷ bs) fs f rest h e = rw (parse_section_loop, e)

parse_section_loop-sections :
    (fs done : List Function) (fuel : ℕ)
    → All IsFunction fs
    → length (sections fs) ≤ fuel
    → parse_section_loop fuel (sections fs) done ≡ some (ok (done ++ fs))
parse_section_loop-sections [] done fuel h enough =
    rw append-nil (unfold parse_section_loop in refl)
parse_section_loop-sections (f ∷ fs) done zero h enough =
    absurd (omega (arith, section_bytes_size f, length-append (section_bytes f) (sections fs)))
parse_section_loop-sections (f ∷ fs) done (suc fuel) h enough =
    let size = length-append (section_bytes f) (sections fs) in
    parse_section_loop_step fuel (sections (f ∷ fs)) done f (sections fs)
      (omega (arith, section_bytes_size f, size)) (read_from_section-bytes f (sections fs) h.0)
    ∙ parse_section_loop-sections fs (done ++ (f ∷ [])) fuel h.1
        (omega (arith, section_bytes_size f, size))
    ∙ ap (λ (t : List Function). some (ok t)) (append_assoc done (f ∷ []) fs)

-- `parse_section` reads back a whole list of signatures, in order, from the sections that `custom_section`
-- writes for them, one after the other; each must be within the limits.
pub parse_section-sections :
    (fs : List Function) → All IsFunction fs → parse_section (sections fs) ≡ some (ok fs)
unfolding parse_section
parse_section-sections fs h = parse_section_loop-sections fs [] _ h (omega arith)
