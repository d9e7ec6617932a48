-- ===== src/Signature/Reader.antt =====
-- Reading signatures: `read_u32`, `read_str` and the `read_from_section` functions of
-- crates/lib/src/signature.rs, and `Processor::parse_section` of crates/lib/src/processor/mod.rs.
-- A reader takes the buffer and returns its value with the bytes that are left.
pub mod Fields
pub mod Accepts
pub mod RoundTrip
pub mod Canonical
use externref.Prelude.{
  ℕ, zero, suc, ◌+◌, ◌*◌, ◌/◌, Bool, true, false, List, [], ◌∷◌, ◌++◌, Option, none, some, ltb, leb,
  ◌==◌, ◌&&◌, if◌then◌else◌, length, take, drop, Outcome, ok, err, fault, map_err, ◌>>=◌, Str, text,
}
use externref.Signature.Types.{
  BitSlice, FunctionKind, export, import, Function, ReadError, unexpected_eof, utf8, ReadResult,
  with_context,
}
use externref.Signature.Utf8.{utf8_error}

-- `format!("length for {context}")`
abbrev pub length_for : Str → Str
length_for context = text "length for " ++ context

-- `u32::from_le_bytes`
abbrev pub from_le_bytes : List ℕ → ℕ
from_le_bytes [] = 0
from_le_bytes (b ∷ bs) = b + 256 * from_le_bytes bs

unfoldable pub read_u32 : List ℕ → Str → ReadResult (ℕ × List ℕ)
unfolding with_context
read_u32 buffer context =
    if ltb (length buffer) 4
    then err (with_context unexpected_eof context)
    else ok (from_le_bytes (take 4 buffer), drop 4 buffer)

-- `str::from_utf8(bytes).map_err(..)`
unfoldable pub from_utf8 : Str → Str → ReadResult Str
unfolding with_context
from_utf8 bytes context = elim (utf8_error bytes) [
  | none ↦ ok bytes
  | some e ↦ err (with_context (utf8 e) context)
]

-- What `read_str` does after the length `len`.
unfoldable pub str_body : List ℕ → ℕ → Str → ReadResult (Str × List ℕ)
unfolding with_context
str_body buffer len context =
    if ltb (length buffer) len
    then err (with_context unexpected_eof context)
    else (from_utf8 (take len buffer) context >>= λ s. ok (s, drop len buffer))

unfoldable pub read_str : List ℕ → Str → ReadResult (Str × List ℕ)
read_str buffer context = do
  (len, buffer') ← read_u32 buffer (length_for context)
  str_body buffer' len context

-- What `BitSlice::read_from_section` does after the length in bits.
unfoldable pub bits_body : List ℕ → ℕ → Str → ReadResult (BitSlice × List ℕ)
unfolding with_context
bits_body buffer bit_len context =
    let byte_len : ℕ = (bit_len + 7) / 8 in
    if ltb (length buffer) byte_len
    then err (with_context unexpected_eof context)
    else ok (record { bytes = take byte_len buffer; bit_len = bit_len }, drop byte_len buffer)

unfoldable pub read_bits : List ℕ → Str → ReadResult (BitSlice × List ℕ)
read_bits buffer context = do
  (bit_len, buffer') ← read_u32 buffer (length_for context)
  bits_body buffer' bit_len context

-- `buffer.len() >= 4 && buffer[..4] == [0xff; 4]`
abbrev pub starts_with_ff : List ℕ → Bool
starts_with_ff (a ∷ (b ∷ (c ∷ (d ∷ _)))) = (a == 0xff) && (b == 0xff) && (c == 0xff) && (d == 0xff)
starts_with_ff _ = false

unfoldable pub read_kind : List ℕ → ReadResult (FunctionKind × List ℕ)
read_kind buffer =
    if starts_with_ff buffer
    then ok (export, drop 4 buffer)
    else (read_str buffer (text "module name") >>= λ r. ok (import r.0, r.1))

-- `Function::read_from_section`
unfoldable pub read_from_section : List ℕ → ReadResult (Function × List ℕ)
read_from_section buffer = do
  (kind, buffer₁) ← read_kind buffer
  (name, buffer₂) ← read_str buffer₁ (text "function name")
  (externrefs, buffer₃) ← read_bits buffer₂ (text "externref bit slice")
  ok (record { kind = kind; name = name; externrefs = externrefs }, buffer₃)

-- The loop of `parse_section`. Out of fuel it is `none`, which is no result of the code.
unfoldable pub parse_section_loop : ℕ → List ℕ → List Function → Option (ReadResult (List Function))
parse_section_loop fuel [] functions = some (ok functions)
parse_section_loop zero (b ∷ bs) functions = none
parse_section_loop (suc fuel) (b ∷ bs) functions = elim (read_from_section (b ∷ bs)) [
  | ok (f, rest) ↦ parse_section_loop fuel rest (functions ++ (f ∷ []))
  | err e ↦ some (err e)
  | fault ↦ some fault
]

-- Each round takes a byte at least, so the length of the section is fuel enough.
unfoldable pub parse_section : List ℕ → Option (ReadResult (List Function))
parse_section raw = parse_section_loop (length raw) raw []
