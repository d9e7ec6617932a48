-- ===== src/E2e/Nulls.antt =====
-- `test_nulls` of e2e-tests/src/lib.rs: an argument that may be null and is borrowed.
use externref.Prelude.{refl, length, ◌+◌, ◌<◌, ◌≡◌, ◌∷◌, Option, none, some, text}
use externref.Wasm.{HostRef, i32_mod}
use externref.Resource.{Imports, World, Resource}
use externref.Resource.Laws.{raw-Holds, new-null}
use externref.Resource.Steps.{Live, Owned, Removed, head}
use externref.E2e.{Host, message_len, send_and_measure, test_nulls}
use externref.E2e.Owned.{OwnedAt, send_message-Owned}
use externref.E2e.Ends.{Roomy, Answering, drop-ends, send_message-ends}

-- No resource, or a reference to one that is alive.
pub data Borrowable (live : Live) : Option Resource → Type 0 where
  null : Borrowable live none
  alive :
      {resource : Resource} (r : HostRef) (rest : Live)
      → Removed resource r live rest
      → Borrowable live (some resource)

-- The host measures a message by its reference: a reference that it sent has four bytes, and null has none.
pub record Measuring (host : Host) : Type 0 where
  pub sent : (w : World) (q : HostRef) → host.message_len w (some q) ≡ 4
  pub null : (w : World) → host.message_len w none ≡ 0

module _ (imports : Imports) (host : Host) (roomy : Roomy imports) (answering : Answering host)
    (measuring : Measuring host) where
  send_and_measure-ends :
      (sender : Option Resource) (live : Live) (w : World)
      → Borrowable live sender
      → OwnedAt w live
      → length w.table + 1 < i32_mod
      → (w' : World) × (send_and_measure imports host sender w ≡ some (tt, w')) × OwnedAt w' live
  unfolding send_and_measure message_len
  send_and_measure-ends none live w null o h = (w, refl, o)
  send_and_measure-ends (some sender) live w (alive r rest p) o h =
      let (bytes, w₁, sent, _) =
        send_message-ends imports host roomy answering sender r live rest (text "test") w p o h in
      let (q, o₁) =
        send_message-Owned imports host sender r live rest (text "test") bytes w w₁ p o sent in
      let read = raw-Holds imports w₁ bytes q o₁.held.0 in
      let (w₂, dropped, o₂) =
        drop-ends imports host roomy answering bytes q ((bytes, q) ∷ live) live w₁ (head live) o₁ in
      (w₂, rw (sent, read, measuring.sent w₁ q, dropped), o₂)

  -- Let insertions end as long as the table has fewer than 2^32 elements, and let the host answer each message
  -- with a reference that is not null, and measure four bytes for it and none for null. If the instance owns what
  -- its table holds, the argument is null or among it, and the table has room for one more element, then
  -- `test_nulls` ends, and the instance owns the same resources as before, the argument included.
  pub test_nulls-ends :
      (sender : Option Resource) (live : Live) (w : World)
      → Borrowable live sender
      → Owned (record { world = w; live = live })
      → length w.table + 1 < i32_mod
      → (w' : World) × (test_nulls imports host sender w ≡ some (tt, w'))
        × Owned (record { world = w'; live = live })
  unfolding test_nulls message_len
  test_nulls-ends sender live w b o h =
      let (w₁, sent, o₁) = send_and_measure-ends sender live w b o h in
      let (_, _, read) = new-null imports w₁ o₁.bound in
      (w₁, rw (sent, read, measuring.null w₁), o₁)
