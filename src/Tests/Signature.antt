-- ===== src/Tests/Signature.antt =====
-- Examples of signatures: an imported function with two slots, the second of them a reference.
use externref.Prelude.{
  ℕ, false, ◌≡◌, ◌⊎◌, refl, List, [], ◌∷◌, ◌++◌, some, All, IsByte, ok, err, fault, ◌>>=◌, text,
  arith,
}
use externref.Signature.Types.{BitSlice, BitSliceBuilder, Function, import, ReadError}
use externref.Signature.Utf8.{utf8_error, utf8_error_from, lead}
use externref.Signature.Bits.{builder, with_set_bits, build, is_set, set_indices}
use externref.Signature.Bits.Builder.{Fits}
use externref.Signature.Bits.Indices.{select, marked, set_indices-with_set_bits, is_set_at_end}
use externref.Signature.Writer.{custom_section, custom_section_len}
use externref.Signature.Writer.Layout.{section_bytes, custom_section-section_bytes}
use externref.Signature.Reader.{read_from_section, parse_section}
use externref.Signature.Reader.Fields.{IsFunction, IsName}
use externref.Signature.Reader.RoundTrip.{
  sections, read_from_section-custom_section, parse_section-sections,
}
use externref.Signature.Reader.Canonical.{read_from_section-Read, parse_section_cases}

abbrev show_ : Function
show_ = record {
  kind = import (text "ui");
  name = text "show";
  externrefs = record { bytes = 2 ∷ []; bit_len = 2 };
}

web-IsName : IsName (text "ui")
unfolding utf8_error utf8_error_from lead
web-IsName = record { fits = omega arith; is_utf8 = refl; bytes = (omega arith, (omega arith, tt)) }

show-IsName : IsName (text "show")
unfolding utf8_error utf8_error_from lead
show-IsName = record {
  fits = omega arith;
  is_utf8 = refl;
  bytes = (omega arith, (omega arith, (omega arith, (omega arith, tt))));
}

show-IsFunction : IsFunction show_
show-IsFunction = record {
  kind = (web-IsName, omega arith);
  name = show-IsName;
  externrefs = record { fits = omega arith; byte_len = refl; bytes = (omega arith, tt) };
}

read_from_section-custom_section_example :
    read_from_section (section_bytes show_ ++ (1 ∷ [])) ≡ ok (show_, 1 ∷ [])
read_from_section-custom_section_example =
    read_from_section-custom_section show_ (section_bytes show_) (1 ∷ []) show-IsFunction
      (custom_section-section_bytes show_)

custom_section-section_bytes_example :
    custom_section (custom_section_len show_) show_ ≡ ok (section_bytes show_)
custom_section-section_bytes_example = custom_section-section_bytes show_

parse_section-sections_example :
    parse_section (sections (show_ ∷ show_ ∷ [])) ≡ some (ok (show_ ∷ show_ ∷ []))
parse_section-sections_example =
    parse_section-sections (show_ ∷ show_ ∷ []) (show-IsFunction, (show-IsFunction, tt))

abbrev short : List ℕ
short = 255 ∷ 255 ∷ 255 ∷ 255 ∷ 1 ∷ []

parse_section_cases_example :
    ((fs : List Function) × (parse_section short ≡ some (ok fs))
      × (short ≡ sections fs)
      × All IsFunction fs)
    ⊎ ((e : ReadError) × (parse_section short ≡ some (err e)))
parse_section_cases_example =
    parse_section_cases short
      (omega arith, (omega arith, (omega arith, (omega arith, (omega arith, tt)))))

abbrev whole : List ℕ
whole = 2 ∷ 0 ∷ 0 ∷ 0 ∷ 117 ∷ 105 ∷ 4 ∷ 0 ∷ 0 ∷ 0 ∷ 115 ∷ 104 ∷ 111 ∷ 119 ∷ 2 ∷ 0 ∷ 0 ∷ 0 ∷ 2 ∷ []

whole-bytes : All IsByte whole
whole-bytes = (
  omega arith,
  (
    omega arith,
    (
      omega arith,
      (
        omega arith,
        (
          omega arith,
          (
            omega arith,
            (
              omega arith,
              (
                omega arith,
                (
                  omega arith,
                  (
                    omega arith,
                    (
                      omega arith,
                      (
                        omega arith,
                        (
                          omega arith,
                          (
                            omega arith,
                            (
                              omega arith,
                              (omega arith, (omega arith, (omega arith, (omega arith, tt)))),
                            ),
                          ),
                        ),
                      ),
                    ),
                  ),
                ),
              ),
            ),
          ),
        ),
      ),
    ),
  ),
)

read_from_section-Read_example :
    (whole ≡ section_bytes show_ ++ []) × IsFunction show_ × All IsByte []
read_from_section-Read_example = read_from_section-Read whole show_ [] whole-bytes (
    read_from_section-custom_section show_ whole [] show-IsFunction
      (custom_section-section_bytes show_))

set_indices-with_set_bits_example :
    (t : BitSliceBuilder) × ((builder 1 3 >>= with_set_bits (2 ∷ 0 ∷ [])) ≡ ok t)
    × Fits t.bytes t.bit_len
    × (t.bit_len ≡ 3)
    × (set_indices (build t) ≡ ok (select (marked (2 ∷ 0 ∷ [])) 0 3))
set_indices-with_set_bits_example =
    set_indices-with_set_bits 1 3 (2 ∷ 0 ∷ []) refl (omega arith) (omega arith, (omega arith, tt))

abbrev full : BitSlice
full = record { bytes = 129 ∷ []; bit_len = 8 }

full-Fits : Fits (129 ∷ []) 8
full-Fits = record { bytes_len = refl; all_bytes = (omega arith, tt) }

is_set_at_end_example : (is_set full 8 ≡ fault) × (is_set full 9 ≡ ok false)
is_set_at_end_example = is_set_at_end full 0 full-Fits refl
