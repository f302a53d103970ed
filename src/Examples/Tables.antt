-- ===== src/Examples/Tables.antt =====
-- The theorems on the registry, at a table with one entry and at short runs from the empty one.
use libc_override.Base.{ℕ, ◌<◌, ◌≡◌, ◌↔◌, refl, none, some, arith, List, [], ◌∷◌}
use libc_override.Registry.Calls.{Call, run, run_map, registry_refines}
use libc_override.Registry.Lookup.{lookup_iff}
use libc_override.Registry.Refine.{Map, put, initial, initial-Models, insert-Models}
use libc_override.Registry.{
  Registry, capacity, entry, store, probe, insert_locked, lookup_locked, insert_from, index_for,
  found,
}

abbrev table : Registry
table = store initial (probe 4096 0) (entry 4096 24 1)

table-inserts : insert_locked initial 4096 24 1 ≡ some table
unfolding insert_locked insert_from probe index_for
table-inserts = refl

abbrev map : Map
map = put 4096 (some (24, 1)) (λ q. none)

lookup_iff_example :
    (lookup_locked table 4096 ≡ some (24, 1))
    ↔ ((j : ℕ) × (j < capacity) × ((table j).key ≡ 4096) × (found (table j) ≡ (24, 1)))
lookup_iff_example =
    lookup_iff table
      (insert-Models initial-Models {k = 4096} (omega arith) 24 1 table-inserts).placed {k = 4096}
      (omega arith) (24, 1)

abbrev calls : List Call
calls = Call.insert 4096 24 1 ∷ Call.lookup 4096 ∷ Call.remove 4096 ∷ Call.lookup 4096 ∷ []

registry_refines_example : run initial calls ≡ run_map (λ q. none) calls
registry_refines_example =
    registry_refines calls (omega arith)
      (omega arith, (omega arith, (omega arith, (omega arith, tt))))
