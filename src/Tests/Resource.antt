-- ===== src/Tests/Resource.antt =====
-- Examples of resources over the generated functions, with a hook, in a table of three elements.
use externref.Prelude.{ℕ, ◌≡◌, refl, Bool, [], ◌∷◌, ◌++◌, Option, none, some, ltb, length, arith}
use externref.Wasm.{invoke, exec_table_set, exec_table_grow}
use externref.Patched.{patch_insert_fn, find_free, store_value, null_check, loop_body}
use externref.Patched.Loop.{machine_code}
use externref.Patched.Effects.{Inserted}
use externref.Resource.{
  Imports, World, Resource, index_of, insert_externref, new, raw, drop, take_raw,
}
use externref.Resource.Lifetime.{live, drop-new}
use externref.Resource.Laws.{Holds, new-Holds, take_raw-null}
use externref.Resource.Patched.{patched, run_insert}
use externref.Resource.Ownership.{Reach-Owned}
use externref.Resource.Steps.{receive, here, then_, start, Owned}

abbrev grows : ℕ → Bool
grows n = ltb n 8

abbrev pub code : Imports
code = patched grows (some 4)

abbrev pub world : World
world = record { table = some 7 ∷ none ∷ some 9 ∷ []; calls = [] }

abbrev pub third : Resource
third = record { id = 2 }

pub third-Holds : Holds world third 9
third-Holds = record { slot = refl; index = omega arith }

take_raw-null_example :
    (w' : World) × (take_raw code (some third) world ≡ some (none, w'))
    × (w'.calls ≡ [] ++ code.hook (some 9))
take_raw-null_example = take_raw-null code world third 9 third-Holds

abbrev filled : World
filled = record { table = some 7 ∷ some 5 ∷ some 9 ∷ []; calls = [] }

run_new : new code (some 5) world ≡ some (some (record { id = 1 }), filled)
unfolding new insert_externref index_of patched run_insert invoke machine_code patch_insert_fn
    null_check find_free loop_body store_value exec_table_set exec_table_grow
run_new = refl

new-Holds_example :
    (resource : Resource) × (◌≡◌ {A = Option Resource} (some (record { id = 1 })) (some resource))
    × Holds filled resource 5
    × Inserted 5 world.table resource.id filled.table
    × (filled.calls ≡ world.calls)
new-Holds_example = new-Holds code world filled 5 (some (record { id = 1 })) (omega arith) run_new

drop-new_example :
    (resource : Resource) × (w₂ : World) × (◌≡◌ {A = Option Resource}
      (some (record { id = 1 }))
      (some resource))
    × (live world.table resource.id ≡ none)
    × (filled.calls ≡ world.calls)
    × (raw code (some resource) filled ≡ some (some 5, filled))
    × (drop code resource filled ≡ some (tt, w₂))
    × (w₂.calls ≡ world.calls ++ code.hook (some 5))
    × (length w₂.table ≡ length filled.table)
    × ((j : ℕ) → live w₂.table j ≡ live world.table j)
drop-new_example = drop-new code world filled 5 (some (record { id = 1 })) (omega arith) run_new

abbrev grown : World
grown = record { table = some 5 ∷ []; calls = [] }

run_first : new code (some 5) start.world ≡ some (some (record { id = 0 }), grown)
unfolding new insert_externref index_of patched run_insert invoke machine_code patch_insert_fn
    null_check find_free loop_body store_value exec_table_set exec_table_grow
run_first = refl

Reach-Owned_example : Owned (record { world = grown; live = (record { id = 0 }, 5) ∷ [] })
Reach-Owned_example =
    Reach-Owned code (record { world = grown; live = (record { id = 0 }, 5) ∷ [] })
      (then_ here (receive start 5 (record { id = 0 }) grown run_first))
