-- ===== src/Cli.antt =====
-- crates/cli/src/main.rs: the command that processes a module. The files, the standard input and the standard
-- output are parameters, and a run lists what it does to them. Parsing of the command line is clap's.
pub mod Name
pub mod Run
use externref.Prelude.{
  ℕ, Bool, true, false, not, ◌&&◌, List, [], ◌∷◌, ◌++◌, Option, none, some, ltb, ◌==◌,
  if◌then◌else◌, Outcome, ok, err, fault, ◌>>=◌, ◌>>◌, ensure, map_err, Str, text, str_eq,
}
use externref.Processor.Error.{Error}
use externref.Processor.Resolve.{Options, default_options, set_ref_table, set_drop_fn}
use externref.Processor.Process.{Bytes, Arenas, process_bytes}

pub record ModuleAndName : Type 0 where
  pub module_name : Str
  pub name : Str

-- The texts stand in the source.
pub data NameError : Type 0 where
  no_separator module_empty module_not_ascii name_empty name_not_ascii : NameError

-- `s.split_once("::")`
abbrev pub colon : ℕ
colon = b':'

abbrev pub before : ℕ → Option (Str × Str) → Option (Str × Str)
before a none = none
before a (some (s, t)) = some (a ∷ s, t)

unfoldable pub split_once : Str → Option (Str × Str)
split_once [] = none
split_once (a ∷ []) = none
split_once (a ∷ (b ∷ s)) =
    let rest = split_once (b ∷ s) in
    if (a == colon) && (b == colon) then some ([], s) else before a rest

unfoldable pub is_ascii : Str → Bool
is_ascii [] = true
is_ascii (b ∷ s) = ltb b 128 && is_ascii s

abbrev pub is_empty : Str → Bool
is_empty [] = true
is_empty (b ∷ s) = false

abbrev pub required : Option (Str × Str) → Outcome NameError (Str × Str)
required none = err no_separator
required (some p) = ok p

-- `ModuleAndName::from_str`
unfoldable pub from_str : Str → Outcome NameError ModuleAndName
from_str s = do
  parts ← required (split_once s)
  ensure (not (is_empty parts.0)) module_empty
  ensure (is_ascii parts.0) module_not_ascii
  ensure (not (is_empty parts.1)) name_empty
  ensure (is_ascii parts.1) name_not_ascii
  ok (record { module_name = parts.0; name = parts.1 })

-- `Cli`
pub record Cli : Type 0 where
  pub input : Str
  pub output : Option Str
  pub export_table : Str
  pub drop_fn : Option ModuleAndName

-- An error of the host, by a code.
abbrev pub IoError : Type 0
IoError = ℕ

-- What a run does to the host, in order.
pub data Event : Type 0 where
  read_stdin : Event
  read_file : Str → Event
  write_file : Str → Bytes → Event
  write_stdout : Bytes → Event

-- What the host answers.
pub record Host : Type 0 where
  pub stdin : Outcome IoError Bytes
  pub file : Str → Outcome IoError Bytes
  pub to_file : Str → Bytes → Outcome IoError (Unit {0})
  pub to_stdout : Bytes → Outcome IoError (Unit {0})

-- The contexts of the errors of `run`.
pub data CliError : Type 0 where
  reading : Str → IoError → CliError
  processing : Error → CliError
  writing : Option Str → IoError → CliError

abbrev pub Ran : Type 0 → Type 0
Ran A = List Event × Outcome CliError A

-- The run goes on behind a value.
abbrev pub go_on : {A B : Type 0} → List Event → Outcome CliError A → (A → Ran B) → Ran B
go_on events (ok a) next = (events ++ (next a).0, (next a).1)
go_on events (err e) next = (events, err e)
go_on events fault next = (events, fault)

abbrev with_drop_fn : Option ModuleAndName → Options → Options
with_drop_fn none processor = processor
with_drop_fn (some f) processor = set_drop_fn processor f.module_name f.name

-- The options of `run`.
unfoldable pub processor_of : Cli → Options
unfolding set_ref_table set_drop_fn
processor_of self =
    with_drop_fn self.drop_fn (set_ref_table default_options (some self.export_table))

module _ (arenas : Arenas) (host : Host) where
  -- `read_input_module`, with the context of `run`
  unfoldable pub read_input_module : Cli → Ran Bytes
  read_input_module self =
      if str_eq self.input (text "-")
      then (read_stdin ∷ [], map_err (reading self.input) host.stdin)
      else (read_file self.input ∷ [], map_err (reading self.input) (host.file self.input))

  -- `write_output_module`, with the context of `run`
  unfoldable pub write_output_module : Cli → Bytes → Ran (Unit {0})
  write_output_module self bytes = elim self.output [
    | some path ↦
        (write_file path bytes ∷ [], map_err (writing (some path)) (host.to_file path bytes))
    | none ↦ (write_stdout bytes ∷ [], map_err (writing none) (host.to_stdout bytes))
  ]

  -- `run`
  unfoldable pub run : Cli → Ran (Unit {0})
  run self =
      let input = read_input_module self in
      go_on input.0 input.1 λ bytes.
        go_on [] (map_err processing (process_bytes arenas (processor_of self) bytes))
          λ processed. write_output_module self processed
