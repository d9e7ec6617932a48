-- ===== src/Signature/Writer.antt =====
-- Writing a signature: `custom_section_len` and `custom_section` of crates/lib/src/signature.rs.
-- The buffer is a list of bytes of a fixed length, and each write names a position in it.
pub mod Layout
use externref.Prelude.{
  ℕ, zero, suc, ◌+◌, ◌-◌, ◌*◌, ◌/◌, ◌%◌, ◌^◌, List, [], ◌∷◌, ltb, ◌==◌, if◌then◌else◌, length, set,
  replicate, Checked, ok, fault, assert, ◌>>=◌, ◌>>◌, Str,
}
use externref.Signature.Types.{BitSlice, FunctionKind, export, import, Function}

-- `buffer[pos] = byte`
unfoldable pub put : List ℕ → ℕ → ℕ → Checked (List ℕ)
put buffer pos b = if ltb pos (length buffer) then ok (set buffer pos b) else fault

-- `write_u32!(buffer, value, pos)`
unfoldable pub write_u32 : List ℕ → ℕ → ℕ → Checked (List ℕ)
write_u32 buffer value pos = do
  buffer₁ ← put buffer pos (value % 256)
  buffer₂ ← put buffer₁ (pos + 1) (value / 2 ^ 8 % 256)
  buffer₃ ← put buffer₂ (pos + 2) (value / 2 ^ 16 % 256)
  put buffer₃ (pos + 3) (value / 2 ^ 24 % 256)

-- The three loops `while i < bytes.len() { buffer[pos] = bytes[i]; pos += 1; i += 1; }`: they return
-- the buffer and the position behind the bytes.
unfoldable pub copy_bytes : List ℕ → ℕ → List ℕ → Checked (List ℕ × ℕ)
copy_bytes buffer pos [] = ok (buffer, pos)
copy_bytes buffer pos (b ∷ bs) = do buffer' ← put buffer pos b; copy_bytes buffer' (pos + 1) bs

unfoldable pub kind_len_in_custom_section : FunctionKind → ℕ
kind_len_in_custom_section export = 4
kind_len_in_custom_section (import module_name) = 4 + length module_name

-- `u32::MAX`
abbrev pub u32_max : ℕ
u32_max = 0xffff_ffff

unfoldable pub write_kind : FunctionKind → List ℕ → Checked (List ℕ × ℕ)
write_kind export buffer = do buffer' ← write_u32 buffer u32_max 0; ok (buffer', 4)
write_kind (import module_name) buffer = do
  buffer' ← write_u32 buffer (length module_name % 2 ^ 32) 0
  copy_bytes buffer' 4 module_name

unfoldable pub custom_section_len : Function → ℕ
custom_section_len f =
    kind_len_in_custom_section f.kind + 4 + length f.name + 4 + length f.externrefs.bytes

-- `custom_section::<N>()`, with its debug assertion.
unfoldable pub custom_section : ℕ → Function → Checked (List ℕ)
custom_section n f = do
  assert (n == custom_section_len f)
  (buffer, pos) ← write_kind f.kind (replicate n 0)
  buffer₁ ← write_u32 buffer (length f.name % 2 ^ 32) pos
  (buffer₂, pos₂) ← copy_bytes buffer₁ (pos + 4) f.name
  buffer₃ ← write_u32 buffer₂ (f.externrefs.bit_len % 2 ^ 32) pos₂
  (buffer₄, pos₄) ← copy_bytes buffer₃ (pos₂ + 4) f.externrefs.bytes
  ok buffer₄
