-- ===== src/E2e/Ends.antt =====
-- Runs of the exports of e2e-tests/src/lib.rs, when the host answers and the table has room.
use externref.Prelude.{
  ℕ, suc, ◌+◌, ◌<◌, ◌≤◌, ◌≡◌, refl, sym, ap, subst, ◌∙◌, true, List, [], ◌∷◌, ◌++◌, Option, some,
  Str, length, arith, ne→==, lt→ltb, inl, inr,
}
use externref.Wasm.{HostRef, Ref, Table, i32, i32_mod, answer}
use externref.Patched.Effects.{Inserted}
use externref.Processor.Locals.{pop}
use externref.Resource.{
  Imports, World, Resource, M, index_of, insert_externref, new_non_null, drop, return, upcast,
  downcast_unchecked, leak_id, usize_max,
}
use externref.Resource.Patched.{patched, run_insert}
use externref.Patched.Runs.{invoke-answers}
use externref.Resource.Laws.{raw-Holds, drop-Holds}
use externref.Resource.Steps.{Live, Owned, Removed, head, tail}
use externref.Resource.Removal.{Removed-Holds}
use externref.Resource.Ownership.{release-Owned}
use externref.Macro.Conversions.{drop_all}
use externref.E2e.{
  Host, swap_remove, messages, inspect_refs, send_message, collect, run_export, test_export,
  test_export_with_casts,
}
use externref.E2e.Owned.{OwnedAt, onto, ids, send_message-Owned, collect-Owned}

-- An insertion ends while the table stays within its limits.
abbrev pub Roomy : Imports → Type 0
Roomy imports =
    (q : HostRef) (t : Table)
    → length t + 1 < i32_mod
    → (i : ℕ) × (t' : Table) × (imports.insert (some q) t ≡ answer (i32 i ∷ []) t' [])

-- The host finds nothing wrong, and answers a message with a reference.
pub record Answering (host : Host) : Type 0 where
  pub inspects : (w : World) → host.inspect_refs w ≡ true
  pub sends :
      (w : World) (r : Ref) (message : Str)
      → (q : HostRef) × (host.send_message w r message ≡ some q)

length-Inserted :
    (q : HostRef) (t t' : Table) (i : ℕ) → Inserted q t i t' → length t' ≤ length t + 1
length-Inserted q t t' i done = elim done.place [
  | inl (_, same) ↦ omega (arith, same)
  | inr (_, more, _) ↦ omega (arith, more)
]

three :
    (ps : Live)
    → length (ids ps) ≡ 3
    → (p₁ : Resource × HostRef) × (p₂ : Resource × HostRef) × (p₃ : Resource × HostRef) × (ps
        ≡ p₁ ∷ (p₂ ∷ (p₃ ∷ [])))
three [] h = absurd (omega (arith, h))
three (p₁ ∷ []) h = absurd (omega (arith, h))
three (p₁ ∷ (p₂ ∷ [])) h = absurd (omega (arith, h))
three (p₁ ∷ (p₂ ∷ (p₃ ∷ []))) h = (p₁, p₂, p₃, refl)
three (p₁ ∷ (p₂ ∷ (p₃ ∷ (p₄ ∷ ps)))) h = absurd (omega (arith, h))

module _ (imports : Imports) (host : Host) (roomy : Roomy imports)
    (answering : Answering host) where
  new_non_null-ends :
      (q : HostRef) (w : World)
      → length w.table + 1 < i32_mod
      → (a : Resource) × (w' : World) × (new_non_null imports (some q) w ≡ some (a, w'))
        × (length w'.table ≤ length w.table + 1)
  unfolding new_non_null insert_externref index_of
  new_non_null-ends q w h =
      let (i, t', inserted) = roomy q w.table h in
      let (k, same, _, done) =
        imports.insert_some q w.table t' (i32 i ∷ []) [] (omega (arith, h)) inserted in
      let this : k ≡ i = cc in
      let w' : World = record { table = t'; calls = w.calls ++ [] } in
      let small : i < usize_max = rw (← this) done.index in
      (
        record { id = i },
        w',
        rw (inserted, ne→== i usize_max (omega arith)),
        length-Inserted q w.table t' k done,
      )

  pub drop-ends :
      (a : Resource) (r : HostRef) (live rest : Live) (w : World)
      → Removed a r live rest
      → OwnedAt w live
      → (w' : World) × (drop imports a w ≡ some (tt, w')) × OwnedAt w' rest
  drop-ends a r live rest w p o =
      let (w', dropped, _, _, _) =
        drop-Holds imports w a r (Removed-Holds w a r live rest p o.held) in
      (
        w',
        dropped,
        release-Owned imports (record { world = w; live = live }) a r rest w' p dropped o,
      )

  pub send_message-ends :
      (sender : Resource) (r : HostRef) (live rest : Live) (message : Str) (w : World)
      → Removed sender r live rest
      → OwnedAt w live
      → length w.table + 1 < i32_mod
      → (a : Resource) × (w' : World) × (send_message imports host sender message w ≡ some (a, w'))
        × (length w'.table ≤ length w.table + 1)
  unfolding send_message
  send_message-ends sender r live rest message w p o h =
      let read = raw-Holds imports w sender r (Removed-Holds w sender r live rest p o.held) in
      let (q, sent) = answering.sends w (some r) message in
      let (a, w', made, more) = new_non_null-ends q w h in (a, w', rw (read, sent) made, more)

  module _ (cast : Resource → M Resource)
      (casts : (a : Resource) (w : World) → cast a w ≡ some (a, w)) where
    collect-ends :
        (sender : Resource) (r : HostRef) (live rest : Live) (all : List Str) (w : World)
        → Removed sender r live rest
        → OwnedAt w live
        → length w.table + length all < i32_mod
        → (out : List Resource) × (w' : World) × (collect imports host cast sender all w
            ≡ some (out, w'))
          × (length out ≡ length all)
    unfolding collect inspect_refs
    collect-ends sender r live rest [] w p o h = ([], w, refl, refl)
    collect-ends sender r live rest (message ∷ all) w p o h =
        let (a, w₁, sent, more) =
          send_message-ends sender r live rest message w p o (omega (arith, h)) in
        let (q, o₁) = send_message-Owned imports host sender r live rest message a w w₁ p o sent in
        let (out, w', collected, len) =
          collect-ends sender r ((a, q) ∷ live) ((a, q) ∷ rest) all w₁ (tail (a, q) p) o₁
            (omega (arith, h, more)) in
        (a ∷ out, w', rw (answering.inspects w, sent, casts a w₁, collected), ap suc len)

    run_export-ends :
        (sender : Resource) (r : HostRef) (live : Live) (w : World)
        → OwnedAt w ((sender, r) ∷ live)
        → length w.table + 3 < i32_mod
        → (w' : World) × (run_export imports host cast sender w ≡ some (tt, w')) × OwnedAt w' live
    unfolding run_export swap_remove pop drop_all inspect_refs
    run_export-ends sender r live w o h =
        let (out, w₁, collected, len) =
          collect-ends sender r ((sender, r) ∷ live) live messages w (head live) o h in
        let (ps, same, o₁) =
          collect-Owned imports host cast casts sender r ((sender, r) ∷ live) live messages out w w₁
            (head live) o collected in
        let (p₁, p₂, p₃, shape) = three ps (ap length (sym same) ∙ len) in
        let collected' : collect imports host cast sender messages w
            ≡ some (p₁.0 ∷ (p₂.0 ∷ (p₃.0 ∷ [])), w₁) =
          collected ∙ ap (λ (l : List Resource). some (l, w₁)) (same ∙ ap ids shape) in
        let o₁' : OwnedAt w₁ (p₃ ∷ (p₂ ∷ (p₁ ∷ ((sender, r) ∷ live)))) =
          subst (λ (l : Live). OwnedAt w₁ (onto l ((sender, r) ∷ live))) shape o₁ in
        let (w₂, first, o₂) =
          drop-ends p₁.0 p₁.1 _ (p₃ ∷ (p₂ ∷ ((sender, r) ∷ live))) w₁ (tail p₃ (tail p₂ (head _)))
            o₁' in
        let (w₃, last, o₃) = drop-ends p₃.0 p₃.1 _ (p₂ ∷ ((sender, r) ∷ live)) w₂ (head _) o₂ in
        let (w₄, second, o₄) = drop-ends p₂.0 p₂.1 _ ((sender, r) ∷ live) w₃ (head _) o₃ in
        let (w₅, end, o₅) = drop-ends sender r _ live w₄ (head _) o₄ in
        (
          w₅,
          rw (
            collected',
            answering.inspects w₁,
            first,
            answering.inspects w₂,
            last,
            second,
            answering.inspects w₄,
            end,
          ),
          o₅,
        )

  -- Let insertions end as long as the table has fewer than 2^32 elements, and let the host find nothing wrong and
  -- answer each message with a reference that is not null. If the instance owns what its table holds, with the
  -- argument among it, and the table has room for three more elements, then `test_export` and
  -- `test_export_with_casts` end, and leave the instance with what it owns besides the argument.
  pub test_export-ends :
      (sender : Resource) (r : HostRef) (live : Live) (w : World)
      → Owned (record { world = w; live = (sender, r) ∷ live })
      → length w.table + 3 < i32_mod
      → ((w' : World) × (test_export imports host sender w ≡ some (tt, w'))
          × Owned (record { world = w'; live = live }))
        × ((w' : World) × (test_export_with_casts imports host sender w ≡ some (tt, w'))
            × Owned (record { world = w'; live = live }))
  unfolding test_export test_export_with_casts downcast_unchecked upcast leak_id
  test_export-ends sender r live w o h = (
    run_export-ends (λ bytes. return bytes) (λ a v. refl) sender r live w o h,
    run_export-ends upcast (λ a v. refl) sender r live w o h,
  )

-- The generated functions, where the embedder lets a table grow up to its limit.
pub patched-Roomy : (hook : Option ℕ) → Roomy (patched (λ n. true) hook)
unfolding patched run_insert
patched-Roomy hook q t h =
    invoke-answers (λ n. true) i32_mod q t (omega (arith, h)) (omega (arith, h))
      (inr (lt→ltb (length t + 1) i32_mod h))
