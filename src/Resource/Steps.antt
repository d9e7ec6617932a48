-- ===== src/Resource/Steps.antt =====
-- Runs of a module: resources are made and dropped in any order; and who owns which element of the table.
use externref.Prelude.{
  ℕ, ◌<◌, ◌≡◌, ◌≢◌, Bool, true, false, List, [], ◌∷◌, Option, none, some, ◌==◌, if◌then◌else◌,
  length, get_elem?, All,
}
use externref.Wasm.{HostRef, Ref, i32_mod}
use externref.Resource.{Imports, World, Resource, new, drop}
use externref.Resource.Laws.{Holds}

-- The resources that are alive, each with the reference that it was made from.
abbrev pub Live : Type 0
Live = List (Resource × HostRef)

pub record State : Type 0 where
  pub world : World
  pub live : Live

-- Taking one resource out of the live ones.
pub data Removed (resource : Resource) (r : HostRef) : Live → Live → Type 0 where
  head : (live : Live) → Removed resource r ((resource, r) ∷ live) live
  tail :
      {live rest : Live} (other : Resource × HostRef)
      → Removed resource r live rest
      → Removed resource r (other ∷ live) (other ∷ rest)

-- A step makes a resource of a reference, or drops one that is alive.
pub data Step (imports : Imports) : State → State → Type 0 where
  receive :
      (s : State) (r : HostRef) (resource : Resource) (w' : World)
      → new imports (some r) s.world ≡ some (some resource, w')
      → Step imports s (record { world = w'; live = (resource, r) ∷ s.live })
  release :
      (s : State) (resource : Resource) (r : HostRef) (rest : Live) (w' : World)
      → Removed resource r s.live rest
      → drop imports resource s.world ≡ some (tt, w')
      → Step imports s (record { world = w'; live = rest })

pub data Reach (imports : Imports) (s : State) : State → Type 0 where
  here : Reach imports s s
  then_ : {t u : State} → Reach imports s t → Step imports t u → Reach imports s u

-- The instance before any call: an empty table.
abbrev pub start : State
start = record { world = record { table = []; calls = [] }; live = [] }

abbrev pub HoldsAll : World → Live → Type 0
HoldsAll w = All (λ p. Holds w p.0 p.1)

abbrev pub Apart : Resource → Live → Type 0
Apart a = All (λ p. a.id ≢ p.0.id)

abbrev pub Distinct : Live → Type 0
Distinct [] = Unit
Distinct (p ∷ live) = Apart p.0 live × Distinct live

-- Does a live resource have the index `i`?
abbrev pub taken : ℕ → Live → Bool
taken i [] = false
taken i ((a, r) ∷ live) = if i == a.id then true else taken i live

-- Is the element at an index a reference?
abbrev pub occupied : Option Ref → Bool
occupied none = false
occupied (some none) = false
occupied (some (some r)) = true

-- Each live resource holds its own reference, no two share an index, and the elements that are not null
-- are exactly those of the live resources.
pub record Owned (s : State) : Type 0 where
  pub held : HoldsAll s.world s.live
  pub distinct : Distinct s.live
  pub exact : (i : ℕ) → occupied (get_elem? s.world.table i) ≡ taken i s.live
  pub bound : length s.world.table < i32_mod
