-- ===== src/Resource/Removal.antt =====
-- The live resources that are left when one is dropped.
use externref.Prelude.{
  ℕ, ◌≡◌, ◌≢◌, refl, sym, ap, ◌∙◌, Bool, true, false, [], ◌∷◌, none, some, ◌==◌, ne→==,
  if◌then◌else◌, get_elem?,
}
use externref.Wasm.{HostRef}
use externref.Resource.{World, Resource}
use externref.Resource.Laws.{Holds}
use externref.Resource.Steps.{Apart, Distinct, HoldsAll, Live, Removed, head, tail, taken}

Removed-Apart :
    (a b : Resource) (r : HostRef) (live rest : Live)
    → Removed a r live rest
    → Apart b live
    → Apart b rest
Removed-Apart a b r _ _ (head live) h = h.1
Removed-Apart a b r _ _ (tail other p) h = (h.0, Removed-Apart a b r _ _ p h.1)

pub Removed-Distinct :
    (a : Resource) (r : HostRef) (live rest : Live)
    → Removed a r live rest
    → Distinct live
    → Distinct rest
Removed-Distinct a r _ _ (head live) h = h.1
Removed-Distinct a r _ _ (tail other p) h =
    (Removed-Apart a other.0 r _ _ p h.0, Removed-Distinct a r _ _ p h.1)

pub Removed-Holds :
    (w : World) (a : Resource) (r : HostRef) (live rest : Live)
    → Removed a r live rest
    → HoldsAll w live
    → Holds w a r
Removed-Holds w a r _ _ (head live) h = h.0
Removed-Holds w a r _ _ (tail other p) h = Removed-Holds w a r _ _ p h.1

pub Removed-rest :
    (w : World) (a : Resource) (r : HostRef) (live rest : Live)
    → Removed a r live rest
    → HoldsAll w live
    → HoldsAll w rest
Removed-rest w a r _ _ (head live) h = h.1
Removed-rest w a r _ _ (tail other p) h = (h.0, Removed-rest w a r _ _ p h.1)

Removed-ne :
    (a b : Resource) (r : HostRef) (live rest : Live)
    → Removed a r live rest
    → Apart b live
    → b.id ≢ a.id
Removed-ne a b r _ _ (head live) h = h.0
Removed-ne a b r _ _ (tail other p) h = Removed-ne a b r _ _ p h.1

-- What is left after a removal has other indexes than the removed resource.
pub Removed-other :
    (a : Resource) (r : HostRef) (live rest : Live)
    → Removed a r live rest
    → Distinct live
    → Apart a rest
Removed-other a r _ _ (head live) h = h.0
Removed-other a r _ _ (tail other p) h =
    ((λ e. Removed-ne a other.0 r _ _ p h.0 (sym e)), Removed-other a r _ _ p h.1)

Apart-taken : (a : Resource) (live : Live) → Apart a live → taken a.id live ≡ false
Apart-taken a [] h = refl
Apart-taken a ((b, r) ∷ live) h = rw (ne→== a.id b.id h.0) (Apart-taken a live h.1)

-- Removing a resource removes its index, and no other.
pub Removed-taken_self :
    (a : Resource) (r : HostRef) (live rest : Live)
    → Removed a r live rest
    → Distinct live
    → taken a.id rest ≡ false
Removed-taken_self a r live rest p h = Apart-taken a rest (Removed-other a r live rest p h)

pub Removed-taken_other :
    (a : Resource) (r : HostRef) (live rest : Live) (i : ℕ)
    → Removed a r live rest
    → (i == a.id) ≡ false
    → taken i live ≡ taken i rest
Removed-taken_other a r _ _ i (head live) h = rw h
Removed-taken_other a r _ _ i (tail other p) h =
    ap (λ (b : Bool). if i == other.0.id then true else b) (Removed-taken_other a r _ _ i p h)

-- The other live resources keep their references when one is dropped.
pub HoldsAll-dropped :
    (w w' : World) (a : Resource) (live : Live)
    → ((j : ℕ) → get_elem? w'.table j ≡ (if j == a.id then some none else get_elem? w.table j))
    → Apart a live
    → HoldsAll w live
    → HoldsAll w' live
HoldsAll-dropped w w' a [] slots apart h = tt
HoldsAll-dropped w w' a ((b, q) ∷ live) slots (ne, apart) (h, hs) = (
  record {
    slot =
        slots b.id
        ∙ ap (λ (t : Bool). if t then some none else get_elem? w.table b.id)
            (ne→== b.id a.id (λ e. ne (sym e)))
        ∙ h.slot;
    index = h.index;
  },
  HoldsAll-dropped w w' a live slots apart hs,
)
