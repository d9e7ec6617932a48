-- ===== src/Processor/Error.antt =====
-- crates/lib/src/processor/error.rs and crates/lib/src/error.rs: the errors and their texts.
-- The texts of errors of other crates (`anyhow::Error`, `Utf8Error`, `ValType`) are parameters.
use externref.Prelude.{ℕ, [], ◌++◌, Option, none, some, Str, text}
use externref.Signature.Types.{ReadError, ReadErrorKind, unexpected_eof, utf8, Utf8Error}
use externref.Processor.Ir.{ValType}

pub data Location : Type 0 where
  arg : ℕ → Location
  return_type : ℕ → Location

pub data Error : Type 0 where
  read : ReadError → Error
  wasm : Str → Error
  unexpected_import_type : Str → Str → Error
  no_export : Str → Error
  unexpected_export_type : Str → Error
  unexpected_arity : Option Str → Str → ℕ → ℕ → Error
  unexpected_type : Option Str → Str → Location → ValType → Error
  incorrect_guard : Option Str → Option ℕ → Error
  unexpected_call : Option Str → Option ℕ → Error

-- The texts that come from elsewhere.
pub record Texts : Type 0 where
  pub utf8_text : Utf8Error → Str
  pub number : ℕ → Str
  pub val_type : ValType → Str

abbrev pub external_tool_tip : Str
external_tool_tip =
    text "This can be caused by an external WASM manipulation tool such as `wasm-opt`. "
    ++ text "Please run such tools *after* the externref processor."

module _ (t : Texts) where
  -- `Display for ReadErrorKind` and `Display for ReadError`
  unfoldable pub read_error_kind_text : ReadErrorKind → Str
  read_error_kind_text unexpected_eof = text "reached end of input"
  read_error_kind_text (utf8 e) = t.utf8_text e

  unfoldable pub read_error_text : ReadError → Str
  read_error_text e =
      text "failed reading " ++ (e.context ++ (text ": " ++ read_error_kind_text e.kind))

  -- `Display for Location`
  unfoldable pub location_text : Location → Str
  location_text (arg idx) = text "arg #" ++ t.number idx
  location_text (return_type idx) = text "return type #" ++ t.number idx

  unfoldable pub module_descr : Option Str → Str
  module_descr none = []
  module_descr (some m) = text " imported from `" ++ (m ++ text "`")

  unfoldable pub name_or_unnamed : Option Str → Str
  name_or_unnamed none = text "(unnamed function)"
  name_or_unnamed (some n) = n

  unfoldable pub offset_text : Option ℕ → Str
  offset_text none = []
  offset_text (some offset) = text " at " ++ t.number offset

  -- `Display for Error`
  unfoldable pub error_text : Error → Str
  error_text (read e) = text "failed reading WASM custom section: " ++ read_error_text e
  error_text (wasm e) = text "failed reading WASM module: " ++ e
  error_text (unexpected_import_type m name) =
      text "unexpected type of import `"
      ++ (m ++ (text "::" ++ (name ++ text "`; expected a function")))
  error_text (no_export name) = text "missing exported function `" ++ (name ++ text "`")
  error_text (unexpected_export_type name) =
      text "unexpected type of export `" ++ (name ++ text "`; expected a function")
  error_text (unexpected_arity m name expected real) =
      text "unexpected arity for function `"
      ++ (name
          ++ (text "`"
              ++ (module_descr m
                  ++ (text ": expected "
                      ++ (t.number expected ++ (text ", got " ++ t.number real))))))
  error_text (unexpected_type m name place real) =
      location_text place
      ++ (text " of function `"
          ++ (name
              ++ (text "`"
                  ++ (module_descr m
                      ++ (text " has unexpected type; expected `i32`, got " ++ t.val_type real)))))
  error_text (incorrect_guard name offset) =
      text "incorrectly placed externref guard in "
      ++ (name_or_unnamed name ++ (offset_text offset ++ (text ". " ++ external_tool_tip)))
  error_text (unexpected_call name offset) =
      text "unexpected call to an `externref`-returning function in "
      ++ (name_or_unnamed name ++ (offset_text offset ++ (text ". " ++ external_tool_tip)))
