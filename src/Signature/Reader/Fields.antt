-- ===== src/Signature/Reader/Fields.antt =====
-- One field: a number, a name, a bit slice, a kind.
use externref.Prelude.{
  ℕ, ◌+◌, ◌/◌, ◌%◌, ◌^◌, ◌<◌, ◌≡◌, refl, ap, false, List, ◌++◌, le→ltb, length, length-append,
  take-length-append, drop-length-append, All, IsByte, ok, Str, text, arith,
}
use externref.Signature.Types.{BitSlice, FunctionKind, export, import, Function}
use externref.Signature.Utf8.{IsUtf8}
use externref.Signature.Writer.{u32_max}
use externref.Signature.Writer.Layout.{u32_bytes, kind_bytes}
use externref.Signature.Reader.{
  length_for, from_le_bytes, read_u32, from_utf8, read_str, str_body, read_bits, bits_body,
  starts_with_ff, read_kind,
}

abbrev pub IsU32 : ℕ → Type 0
IsU32 v = v < 2 ^ 32

-- What the records in memory satisfy: lengths that a `u32` holds, names of valid UTF-8, and as many
-- bytes as the bits need. The name of a module is not as long as the mark of an export.
pub record IsName (s : Str) : Type 0 where
  pub fits : IsU32 (length s)
  pub is_utf8 : IsUtf8 s
  pub bytes : All IsByte s

pub record IsBits (s : BitSlice) : Type 0 where
  pub fits : IsU32 s.bit_len
  pub byte_len : length s.bytes ≡ (s.bit_len + 7) / 8
  pub bytes : All IsByte s.bytes

abbrev pub IsKind : FunctionKind → Type 0
IsKind export = Unit
IsKind (import m) = IsName m × (length m < u32_max)

pub record IsFunction (f : Function) : Type 0 where
  pub kind : IsKind f.kind
  pub name : IsName f.name
  pub externrefs : IsBits f.externrefs

u32-le_bytes : (v : ℕ) → IsU32 v → from_le_bytes (u32_bytes v) ≡ v
u32-le_bytes v h = omega arith

pub read_u32-bytes :
    (v : ℕ) (rest : List ℕ) (c : Str) → IsU32 v → read_u32 (u32_bytes v ++ rest) c ≡ ok (v, rest)
unfolding read_u32
read_u32-bytes v rest c h =
    rw (le→ltb (length (u32_bytes v ++ rest)) 4 (omega arith))
      (ap (λ (k : ℕ). ok (k, rest)) (u32-le_bytes v h))

from_utf8_lem : (s c : Str) → IsUtf8 s → from_utf8 s c ≡ ok s
unfolding from_utf8
from_utf8_lem s c h = rw (from_utf8, h)

pub read_str-bytes :
    (s rest : Str) (c : Str)
    → IsName s
    → read_str (u32_bytes (length s % 2 ^ 32) ++ (s ++ rest)) c ≡ ok (s, rest)
unfolding read_str str_body
read_str-bytes s rest c n =
    let small : length s % 2 ^ 32 ≡ length s = omega (arith, n.fits) in
    rw (
      small,
      read_u32-bytes (length s) (s ++ rest) (length_for c) n.fits,
      le→ltb (length (s ++ rest)) (length s) (rw length-append (omega arith)),
      take-length-append s rest,
      drop-length-append s rest,
      from_utf8_lem s c n.is_utf8,
    )

pub read_bits-bytes :
    (s : BitSlice) (rest : List ℕ) (c : Str)
    → IsBits s
    → read_bits (u32_bytes (s.bit_len % 2 ^ 32) ++ (s.bytes ++ rest)) c ≡ ok (s, rest)
unfolding read_bits bits_body
read_bits-bytes s rest c n =
    let small : s.bit_len % 2 ^ 32 ≡ s.bit_len = omega (arith, n.fits) in
    rw (
      small,
      read_u32-bytes s.bit_len (s.bytes ++ rest) (length_for c) n.fits,
      ← n.byte_len,
      le→ltb (length (s.bytes ++ rest)) (length s.bytes) (rw length-append (omega arith)),
      take-length-append s.bytes rest,
      drop-length-append s.bytes rest,
    )

-- Only the largest `u32` is written as four bytes 0xff.
not_ff : (v : ℕ) (rest : List ℕ) → v < u32_max → starts_with_ff (u32_bytes v ++ rest) ≡ false
not_ff v rest h = ground arith

pub read_kind-bytes :
    (k : FunctionKind) (rest : List ℕ) → IsKind k → read_kind (kind_bytes k ++ rest) ≡ ok (k, rest)
unfolding read_kind
read_kind-bytes export rest h = refl
read_kind-bytes (import m) rest h =
    let small : length m % 2 ^ 32 ≡ length m = omega (arith, h.1) in
    rw (
      not_ff (length m % 2 ^ 32) (m ++ rest) (omega (arith, h.1)),
      read_str-bytes m rest (text "module name") h.0,
    )
