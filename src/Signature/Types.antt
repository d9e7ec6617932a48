-- ===== src/Signature/Types.antt =====
-- The data of signature.rs and of error.rs.
use externref.Prelude.{ℕ, List, Option, Outcome, Str}

-- `BitSlice`, and `BitSliceBuilder`, which has the same two fields and owns the bytes.
pub record BitSlice : Type 0 where
  pub bytes : List ℕ
  pub bit_len : ℕ

pub record BitSliceBuilder : Type 0 where
  pub bytes : List ℕ
  pub bit_len : ℕ

pub data FunctionKind : Type 0 where
  export : FunctionKind
  import : Str → FunctionKind

pub record Function : Type 0 where
  pub kind : FunctionKind
  pub name : Str
  pub externrefs : BitSlice

-- `core::str::Utf8Error`.
pub record Utf8Error : Type 0 where
  pub valid_up_to : ℕ
  pub error_len : Option ℕ

pub data ReadErrorKind : Type 0 where
  unexpected_eof : ReadErrorKind
  utf8 : Utf8Error → ReadErrorKind

pub record ReadError : Type 0 where
  pub kind : ReadErrorKind
  pub context : Str

abbrev pub ReadResult : Type 0 → Type 0
ReadResult A = Outcome ReadError A

unfoldable pub with_context : ReadErrorKind → Str → ReadError
with_context k context = record { kind = k; context = context }
