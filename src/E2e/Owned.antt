-- ===== src/E2e/Owned.antt =====
-- Who owns the elements of the table while the exports of e2e-tests/src/lib.rs send messages.
use externref.Prelude.{◌≡◌, true, false, sym, ap, subst, ◌∙◌, Bool, List, [], ◌∷◌, map, some, Str}
use externref.Wasm.{HostRef}
use externref.Resource.{Imports, World, Resource, M, go_on-some, assert, new_non_null}
use externref.Resource.Laws.{raw-Holds, new_non_null-new}
use externref.Resource.Steps.{Live, Owned, Removed, tail}
use externref.Resource.Removal.{Removed-Holds}
use externref.Resource.Ownership.{receive-Owned}
use externref.Macro.Conversions.Made.{pair-inj}
use externref.E2e.{Host, inspect_refs, send_message, collect}

-- Live resources in front of which others were made, the first of them first.
abbrev pub onto : Live → Live → Live
onto [] live = live
onto (p ∷ ps) live = onto ps (p ∷ live)

abbrev pub ids : Live → List Resource
ids ps = map (λ p. p.0) ps

abbrev pub OwnedAt : World → Live → Type 0
OwnedAt w live = Owned (record { world = w; live = live })

pub assert-same : (b : Bool) (w w' : World) → assert b w ≡ some (tt, w') → w ≡ w'
assert-same true w w' e = cc
assert-same false w w' e = cc

module _ (imports : Imports) (host : Host) where
  inspect_refs-same : (w w' : World) → inspect_refs imports host w ≡ some (tt, w') → w ≡ w'
  unfolding inspect_refs
  inspect_refs-same w w' e = assert-same (host.inspect_refs w) w w' e

  -- A message is answered with a new resource, from a sender that is alive.
  pub send_message-Owned :
      (sender : Resource) (r : HostRef) (live rest : Live) (message : Str) (bytes : Resource)
      (w w' : World)
      → Removed sender r live rest
      → OwnedAt w live
      → send_message imports host sender message w ≡ some (bytes, w')
      → (q : HostRef) × OwnedAt w' ((bytes, q) ∷ live)
  unfolding send_message
  send_message-Owned sender r live rest message bytes w w' p o e =
      let read = raw-Holds imports w sender r (Removed-Holds w sender r live rest p o.held) in
      let made : new_non_null imports (host.send_message w (some r) message) w ≡ some (bytes, w') =
        rw read at e in
      let (q, _, new_) = new_non_null-new imports w w' _ bytes o.bound made in
      (q, receive-Owned imports (record { world = w; live = live }) q bytes w' new_ o)

  module _ (cast : Resource → M Resource)
      (casts : (a : Resource) (w : World) → cast a w ≡ some (a, w)) where
    pub collect-Owned :
        (sender : Resource) (r : HostRef) (live rest : Live) (all : List Str) (out : List Resource)
        (w w' : World)
        → Removed sender r live rest
        → OwnedAt w live
        → collect imports host cast sender all w ≡ some (out, w')
        → (ps : Live) × (out ≡ ids ps) × OwnedAt w' (onto ps live)
    unfolding collect
    collect-Owned sender r live rest [] out w w' p o e =
        let (same, end) = pair-inj [] out w w' e in
        ([], sym same, subst (λ (v : World). OwnedAt v live) end o)
    collect-Owned sender r live rest (message ∷ all) out w w' p o e =
        let (_, w₁, seen, e₁) = go_on-some (inspect_refs imports host w) _ (out, w') e in
        let (bytes, w₂, sent, e₂) =
          go_on-some (send_message imports host sender message w₁) _ (out, w') e₁ in
        let o₁ = subst (λ (v : World). OwnedAt v live) (inspect_refs-same w w₁ seen) o in
        let (q, o₂) = send_message-Owned sender r live rest message bytes w₁ w₂ p o₁ sent in
        let (others, w₃, more, e₃) =
          go_on-some (collect imports host cast sender all w₂) _ (out, w')
            (rw (casts bytes w₂) at e₂) in
        let (ps, same, o₃) =
          collect-Owned sender r ((bytes, q) ∷ live) ((bytes, q) ∷ rest) all others w₂ w₃
            (tail (bytes, q) p) o₂ more in
        let (made, end) = pair-inj (bytes ∷ others) out w₃ w' e₃ in
        (
          (bytes, q) ∷ ps,
          sym made ∙ ap (◌∷◌ bytes) same,
          subst (λ (v : World). OwnedAt v (onto ps ((bytes, q) ∷ live))) end o₃,
        )
