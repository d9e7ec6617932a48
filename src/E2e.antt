-- ===== src/E2e.antt =====
-- e2e-tests/src/lib.rs, compiled to WASM: functions that a host calls, over the model of `Resource`. The imports of the
-- module `test` are a parameter: they read the table, and give an answer.
pub mod Owned
pub mod Ends
pub mod Nulls
use externref.Prelude.{ℕ, Bool, List, [], ◌∷◌, Option, none, some, Str, text, ◌==◌, if◌then◌else◌}
use externref.Wasm.{Ref}
use externref.Processor.Locals.{pop}
use externref.Resource.{
  Imports, World, Resource, M, ◌>>=◌, ◌>>◌, return, assert, new_non_null, raw, drop, upcast,
  downcast_unchecked,
}
use externref.Macro.Conversions.{drop_all}

-- `send_message`, `message_len` and `inspect_refs_on_host` on the side of the host, which ends a test by a trap.
pub record Host : Type 0 where
  pub send_message : World → Ref → Str → Ref
  pub message_len : World → Ref → ℕ
  pub inspect_refs : World → Bool

-- `Vec::swap_remove(0)`: the first element, and the others with the last one in its place.
unfoldable pub swap_remove {ℓ} : {A : Type ℓ} → List A → Option (A × List A)
swap_remove [] = none
swap_remove (a ∷ rest) = elim (pop rest) [
  | none ↦ some (a, [])
  | some (last, front) ↦ some (a, last ∷ front)
]

abbrev pub or_panic : {A : Type 0} → Option A → M A
or_panic none w = none
or_panic (some a) w = some (a, w)

abbrev pub ask : {A : Type 0} → (World → A) → M A
ask f w = some (f w, w)

abbrev pub messages : List Str
messages = text "test" ∷ text "42" ∷ text "some other string" ∷ []

module _ (imports : Imports) (host : Host) where
  unfoldable pub inspect_refs : M (Unit {0})
  inspect_refs w = assert (host.inspect_refs w) w

  -- The wrappers of the two imports with resources.
  unfoldable pub send_message : Resource → Str → M Resource
  send_message sender message = do
    r ← raw imports (some sender)
    bytes ← ask (λ w. host.send_message w r message)
    new_non_null imports bytes

  unfoldable pub message_len : Option Resource → M ℕ
  message_len bytes = do r ← raw imports bytes; ask (λ w. host.message_len w r)

  -- The iterator, and `collect`. `cast` is what is done to each new resource.
  unfoldable pub collect : (Resource → M Resource) → Resource → List Str → M (List Resource)
  collect cast sender [] = return []
  collect cast sender (message ∷ rest) = do
    inspect_refs
    sent ← send_message sender message
    bytes ← cast sent
    others ← collect cast sender rest
    return (bytes ∷ others)

  -- What the two exports do alike: the argument is dropped at the end.
  unfoldable pub run_export : (Resource → M Resource) → Resource → M (Unit {0})
  run_export cast sender = do
    all ← collect cast sender messages
    inspect_refs
    parts ← or_panic (swap_remove all)
    drop imports parts.0
    inspect_refs
    drop_all imports parts.1
    inspect_refs
    drop imports sender

  unfoldable pub test_export : Resource → M (Unit {0})
  test_export sender = run_export (λ bytes. return bytes) sender

  unfoldable pub test_export_with_casts : Resource → M (Unit {0})
  test_export_with_casts sender = do
    cast_sender ← downcast_unchecked sender
    run_export upcast cast_sender

  -- `if let Some(sender)`: the bytes are dropped at the end of the block.
  unfoldable pub send_and_measure : Option Resource → M (Unit {0})
  send_and_measure none = return tt
  send_and_measure (some sender) = do
    bytes ← send_message sender (text "test")
    n ← message_len (some bytes)
    assert (n == 4)
    drop imports bytes

  unfoldable pub test_nulls : Option Resource → M (Unit {0})
  test_nulls sender = do send_and_measure sender; n ← message_len none; assert (n == 0)
