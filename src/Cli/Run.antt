-- ===== src/Cli/Run.antt =====
-- What a run does to the files and streams of the host.
use externref.Prelude.{
  ◌≡◌, refl, sym, [], ◌∷◌, Option, none, some, if◌then◌else◌, Bool-cases, inl, inr, ◌⊎◌, Outcome,
  ok, err, fault, map_err, Str, text, str_eq, subst,
}
use externref.Processor.Error.{Error}
use externref.Processor.Process.{Bytes, Arenas, process_bytes}
use externref.Cli.{
  Cli, IoError, Event, read_stdin, read_file, write_file, write_stdout, Host, reading, processing,
  writing, Ran, go_on, read_input_module, write_output_module, processor_of, run,
}

-- The one input, and the one output, with what the host answers.
abbrev pub input_event : Cli → Event
input_event self = if str_eq self.input (text "-") then read_stdin else read_file self.input

abbrev pub input_of : Host → Cli → Outcome IoError Bytes
input_of host self = if str_eq self.input (text "-") then host.stdin else host.file self.input

abbrev pub output_event : Option Str → Bytes → Event
output_event (some path) bytes = write_file path bytes
output_event none bytes = write_stdout bytes

abbrev pub answer_to : Host → Option Str → Bytes → Outcome IoError (Unit {0})
answer_to host (some path) bytes = host.to_file path bytes
answer_to host none bytes = host.to_stdout bytes

module _ (arenas : Arenas) (host : Host) where
  read_input_lem :
      (self : Cli)
      → read_input_module arenas host self
        ≡ (input_event self ∷ [], map_err (reading self.input) (input_of host self))
  unfolding read_input_module
  read_input_lem self = elim (Bool-cases (str_eq self.input (text "-"))) [
    | inl yes_ ↦ rw (read_input_module, yes_)
    | inr no_ ↦ rw (read_input_module, no_)
  ]

  write_output_lem :
      (output : Option Str) (bytes : Bytes)
      → ◌≡◌ {A = Ran (Unit {0})}
          (elim output [
            | some path ↦ (
              write_file path bytes ∷ [],
              map_err (writing (some path)) (host.to_file path bytes),
            )
            | none ↦ (write_stdout bytes ∷ [], map_err (writing none) (host.to_stdout bytes))
          ])
          (output_event output bytes ∷ [], map_err (writing output) (answer_to host output bytes))
  write_output_lem none bytes = refl
  write_output_lem (some path) bytes = refl

  -- How a run went.
  pub data Went (self : Cli) : Ran (Unit {0}) → Type 0 where
    unread :
        (e : IoError)
        → input_of host self ≡ err e
        → Went self (input_event self ∷ [], err (reading self.input e))
    unprocessed :
        (bytes : Bytes) (e : Error)
        → input_of host self ≡ ok bytes
        → process_bytes arenas (processor_of self) bytes ≡ err e
        → Went self (input_event self ∷ [], err (processing e))
    panicked :
        (input_of host self ≡ fault)
          ⊎ ((bytes : Bytes) × (input_of host self ≡ ok bytes)
              × (process_bytes arenas (processor_of self) bytes ≡ fault))
        → Went self (input_event self ∷ [], fault)
    wrote :
        (bytes processed : Bytes)
        → input_of host self ≡ ok bytes
        → process_bytes arenas (processor_of self) bytes ≡ ok processed
        → Went self (
          input_event self ∷ (output_event self.output processed ∷ []),
          map_err (writing self.output) (answer_to host self.output processed),
        )

  after_input :
      (self : Cli) (input : Outcome IoError Bytes)
      → input_of host self ≡ input
      → Went self (
          go_on (input_event self ∷ []) (map_err (reading self.input) input) λ bytes.
            go_on []
              (map_err processing (process_bytes arenas (processor_of self) bytes))
              λ processed. write_output_module arenas host self processed)
  unfolding write_output_module
  after_input self (err e) h = unread e h
  after_input self fault h = panicked (inl h)
  after_input self (ok bytes) h =
      after_processing (process_bytes arenas (processor_of self) bytes) refl
    where
      after_processing :
          (r : Outcome Error Bytes)
          → process_bytes arenas (processor_of self) bytes ≡ r
          → Went self (
              go_on (input_event self ∷ []) (ok bytes) λ bytes.
                go_on []
                  (map_err processing r)
                  λ processed. write_output_module arenas host self processed)
      after_processing (err e) k = unprocessed bytes e h k
      after_processing fault k = panicked (inr (bytes, h, k))
      after_processing (ok processed) k =
          subst (λ (r : Ran (Unit {0})). Went self (input_event self ∷ r.0, r.1))
            (sym (write_output_lem self.output processed)) (wrote bytes processed h k)

  -- Every run reads its one input first. If it cannot be read, or is refused by the processor, or the processor
  -- panics, nothing is written, and the error says which step failed. Else the processed bytes, and nothing more,
  -- are written to the one output, and the run ends as the writing does.
  pub run-Went : (self : Cli) → Went self (run arenas host self)
  unfolding run
  run-Went self = rw (read_input_lem self) (after_input self (input_of host self) refl)
