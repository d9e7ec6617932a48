-- ===== src/Resource/Ownership.antt =====
-- All runs of a module: resources are made from references of the host and dropped, in any order.
use externref.Prelude.{
  ℕ, ◌≡◌, ◌≢◌, inl, inr, refl, sym, ap, subst, ◌∙◌, Bool, true, false, [], ◌∷◌, none, some, ◌==◌,
  ==→eq, ne→==, Bool-cases, if◌then◌else◌, get_elem?, get_elem?-none, arith,
}
use externref.Wasm.{HostRef, Table}
use externref.Patched.Effects.{Inserted}
use externref.Resource.{Imports, World, Resource, new, drop}
use externref.Resource.Laws.{Holds, new-Holds, drop-Holds}
use externref.Resource.Removal.{
  Removed-Distinct, Removed-Holds, Removed-rest, Removed-other, Removed-taken_self,
  Removed-taken_other, HoldsAll-dropped,
}
use externref.Resource.Steps.{
  Apart, HoldsAll, Live, Owned, Reach, Removed, State, Step, here, occupied, receive, release,
  start, taken, then_,
}

start-Owned : Owned start
start-Owned = record { held = tt; distinct = tt; exact = λ i. refl; bound = omega arith }

fresh :
    (q : HostRef) (t : Table) (i : ℕ) (r : HostRef) (t' : Table)
    → Inserted r t i t'
    → get_elem? t i ≢ some (some q)
fresh q t i r t' done e = elim done.place [
  | inl (null, _) ↦ cc
  | inr (end, _, _) ↦ cc (get_elem?-none t i (omega arith))
]

-- A resource that was alive keeps its reference through an insertion, at another index.
Holds-kept :
    (w w' : World) (a : Resource) (q r : HostRef) (i : ℕ)
    → Inserted r w.table i w'.table
    → Holds w a q
    → (i ≢ a.id) × Holds w' a q
Holds-kept w w' a q r i done h =
    let apart : i ≢ a.id =
      λ e. fresh q w.table i r w'.table done (ap (get_elem? w.table) e ∙ h.slot) in
    (
      apart,
      record {
        slot =
            done.slots a.id
            ∙ ap (λ (b : Bool). if b then some (some r) else get_elem? w.table a.id)
                (ne→== a.id i (λ e. apart (sym e)))
            ∙ h.slot;
        index = h.index;
      },
    )

HoldsAll-kept :
    (w w' : World) (r : HostRef) (i : ℕ) (live : Live)
    → Inserted r w.table i w'.table
    → HoldsAll w live
    → Apart (record { id = i }) live × HoldsAll w' live
HoldsAll-kept w w' r i [] done h = (tt, tt)
HoldsAll-kept w w' r i ((a, q) ∷ live) done (h, hs) =
    let (apart, kept) = Holds-kept w w' a q r i done h in
    let (aparts, kepts) = HoldsAll-kept w w' r i live done hs in ((apart, aparts), (kept, kepts))

pub receive-Owned :
    (imports : Imports) (s : State) (r : HostRef) (resource : Resource) (w' : World)
    → new imports (some r) s.world ≡ some (some resource, w')
    → Owned s
    → Owned (record { world = w'; live = (resource, r) ∷ s.live })
receive-Owned imports s r resource w' e o =
    let (a, same, holds, done, _) = new-Holds imports s.world w' r (some resource) o.bound e in
    let this : a ≡ resource = cc in
    subst (λ b. Owned (record { world = w'; live = (b, r) ∷ s.live })) this (owned a holds done)
  where
    owned :
        (a : Resource)
        → Holds w' a r
        → Inserted r s.world.table a.id w'.table
        → Owned (record { world = w'; live = (a, r) ∷ s.live })
    owned a holds done =
        let (apart, kept) = HoldsAll-kept s.world w' r a.id s.live done o.held in
        record {
          held = (holds, kept);
          distinct = (apart, o.distinct);
          exact = λ i. ap occupied (done.slots i) ∙ exact_if (i == a.id) i;
          bound = done.bound;
        }
      where
        exact_if :
            (b : Bool) (i : ℕ)
            → occupied (if b then some (some r) else get_elem? s.world.table i)
              ≡ (if b then true else taken i s.live)
        exact_if true i = refl
        exact_if false i = o.exact i

pub release-Owned :
    (imports : Imports) (s : State) (a : Resource) (r : HostRef) (rest : Live) (w' : World)
    → Removed a r s.live rest
    → drop imports a s.world ≡ some (tt, w')
    → Owned s
    → Owned (record { world = w'; live = rest })
release-Owned imports s a r rest w' p e o =
    let (w₁, done, _, len, slots) =
      drop-Holds imports s.world a r (Removed-Holds s.world a r s.live rest p o.held) in
    let this : w₁ ≡ w' = cc in
    subst (λ (w : World). Owned (record { world = w; live = rest })) this
      (record {
        held =
            HoldsAll-dropped s.world w₁ a rest slots (Removed-other a r s.live rest p o.distinct)
              (Removed-rest s.world a r s.live rest p o.held);
        distinct = Removed-Distinct a r s.live rest p o.distinct;
        exact = λ i. ap occupied (slots i) ∙ exact_if i;
        bound = rw len o.bound;
      })
  where
    exact_if :
        (i : ℕ)
        → occupied (if i == a.id then some none else get_elem? s.world.table i) ≡ taken i rest
    exact_if i = elim (Bool-cases (i == a.id)) [
      | inl same ↦
          rw (same, ==→eq i a.id same) (sym (Removed-taken_self a r s.live rest p o.distinct))
      | inr other ↦ rw other (o.exact i ∙ Removed-taken_other a r s.live rest i p other)
    ]

Step-Owned : {imports : Imports} {s t : State} → Step imports s t → Owned s → Owned t
Step-Owned {imports} (receive s r a w' e) o = receive-Owned imports s r a w' e o
Step-Owned {imports} (release s a r rest w' p e) o = release-Owned imports s a r rest w' p e o

-- After any sequence of makings and droppings that begins with the empty table, each live resource holds
-- the reference that it was made from, no two share an index, the table holds no other
-- reference, and it has fewer than 2^32 elements.
pub Reach-Owned : (imports : Imports) (t : State) → Reach imports start t → Owned t
Reach-Owned imports t here = start-Owned
Reach-Owned imports t (then_ {t = u} r st) = Step-Owned st (Reach-Owned imports u r)
