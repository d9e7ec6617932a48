-- ===== src/Macro/Processed/Read.antt =====
-- From the macro to the reader: the section of a declaration.
use externref.Prelude.{ℕ, ◌++◌, ◌^◌, ◌<◌, ◌≡◌, true, List, Option, ok, Str}
use externref.Signature.Types.{BitSliceBuilder, Function}
use externref.Signature.Bits.{build, set_indices}
use externref.Signature.Bits.Indices.{select, marked}
use externref.Signature.Writer.{custom_section, custom_section_len}
use externref.Signature.Writer.Layout.{section_bytes, custom_section-section_bytes}
use externref.Signature.Reader.{read_from_section}
use externref.Signature.Reader.Fields.{IsKind, IsName, IsFunction}
use externref.Signature.Reader.RoundTrip.{read_from_section-bytes}
use externref.Macro.Syntax.{Segments, Expr, Signature}
use externref.Macro.Function.{from_sig, needs_declaring, declare, evaluate, declared_kind}
use externref.Macro.Function.Marks.{slots, is_resource_slot}
use externref.Macro.Function.Slots.{create_externrefs-is_resource_slot}

module _ (order : List ℕ → List ℕ)
    (keeps : (is : List ℕ) (j : ℕ) → marked (order is) j ≡ marked is j) where
  -- Let a map give its keys in any order. If a function needs a declaration, has fewer than 2^32 slots, and its
  -- names are within the limits of the section, then its declaration evaluates without a panic, `custom_section`
  -- writes it, and `read_from_section` reads it back, whatever bytes follow: the indices that are set in what was
  -- read are those of the slots that are resources by the signature.
  pub declare-read_from_section :
      (sig : Signature) (name : Option Expr) (cr : Segments) (module_name : Option Str)
      (label : Str) (rest : List ℕ)
      → needs_declaring (from_sig sig name cr) ≡ true
      → slots sig < 2 ^ 32
      → IsKind (declared_kind module_name)
      → IsName label
      → (t : BitSliceBuilder) × (section : List ℕ) × (evaluate
            (declare order (from_sig sig name cr) module_name).externrefs
          ≡ ok t)
        × (custom_section
              (custom_section_len
                (record { kind = declared_kind module_name; name = label; externrefs = build t }))
              (record { kind = declared_kind module_name; name = label; externrefs = build t })
            ≡ ok section)
        × (read_from_section (section ++ rest)
            ≡ ok (
              record { kind = declared_kind module_name; name = label; externrefs = build t },
              rest,
            ))
        × (set_indices (build t) ≡ ok (select (is_resource_slot sig) 0 (slots sig)))
  unfolding declare build
  declare-read_from_section sig name cr module_name label rest needs small is_kind is_name =
      let (t, made, fits, len, shown) =
        create_externrefs-is_resource_slot order keeps sig name cr needs in
      let f : Function = record {
        kind = declared_kind module_name;
        name = label;
        externrefs = build t;
      } in
      let valid : IsFunction f = record {
        kind = is_kind;
        name = is_name;
        externrefs = record {
          fits = rw len small;
          byte_len = fits.bytes_len;
          bytes = fits.all_bytes;
        };
      } in
      (
        t,
        section_bytes f,
        made,
        custom_section-section_bytes f,
        read_from_section-bytes f rest valid,
        shown,
      )
