-- ===== src/Examples/Calls.antt =====
-- The theorems on the allocator, at a state with one tracked block.
use libc_override.Base.{
  ℕ, ◌*◌, ◌≤◌, ◌<◌, ◌≡◌, ◌⊎◌, refl, false, some, none, arith, size_max, if◌then◌else◌, other, ◌==◌,
  ◌∙◌, sym,
}
use libc_override.Bootstrap.{Arena, contains}
use libc_override.Examples.Allocator.{Bump, env, bump-IsAllocator}
use libc_override.Mock.Allocate.{
  malloc-Allocated, calloc-Allocated, realloc-null-Allocated, Overflows,
}
use libc_override.Mock.Command.{State}
use libc_override.Mock.Commit.{Allocated}
use libc_override.Mock.Consistent.{IsConsistent, insert-Owns, insert-Counts}
use libc_override.Mock.Ensures.{Ensures}
use libc_override.Mock.Free.{Frees, free-Frees}
use libc_override.Mock.Moves.{Reallocates}
use libc_override.Mock.Realloc.{realloc-Reallocates}
use libc_override.Mock.Bridge.{bridge_libc_free-keeps}
use libc_override.Mock.Race.{move_entry-Untracked}
use libc_override.Mock.Resolve.{Dies, Misses}
use libc_override.Mock.{
  malloc, calloc, realloc, free, is_tracked_allocation, bridge_libc_free, move_entry,
}
use libc_override.Registry.Count.{total-empty, is_live, is_live-dead, live_size, live_size-dead}
use libc_override.Registry.Refine.{initial, initial-Models}
use libc_override.Registry.{
  Registry, entry, store, probe, insert_locked, insert_from, index_for, lookup_locked, lookup_from,
}
use libc_override.Stats.Capture.{fresh}
use libc_override.Stats.{live_add}

abbrev arena : Arena
arena = record { offset = 0; bytes = λ i. 0; errno = other 0 }

abbrev heap : Bump
heap = record { next = 4096; alive = λ q. false }

abbrev start : State Bump
start = record {
  heap = heap;
  registry = initial;
  counters = fresh;
  next_allocation_id = 1;
  arena = arena;
  in_resolver = false;
  resolved = false;
}

start-IsConsistent : IsConsistent env start
start-IsConsistent = record {
  owns = record {
    placed = initial-Models.placed;
    owned = λ q v kq e. cc (sym (initial-Models.reads q kq) ∙ e);
  };
  counts = record {
    blocks = rw (total-empty is_live is_live-dead) refl;
    bytes = rw (total-empty live_size live_size-dead) refl;
  };
}

abbrev table : Registry
table = store initial (probe 4096 0) (entry 4096 24 1)

table-inserts : insert_locked initial 4096 24 1 ≡ some table
unfolding insert_locked insert_from probe index_for
table-inserts = refl

abbrev busy : State Bump
busy = record start {
  heap = record { next = 8192; alive = λ q. q == 4096 };
  registry = table;
  counters = live_add 24 fresh;
  next_allocation_id = 2;
}

busy-IsConsistent : IsConsistent env busy
busy-IsConsistent = record {
  owns =
      insert-Owns env start-IsConsistent.owns (omega arith) 24 1 busy.heap table-inserts
        (omega arith) refl (λ q v kq e live. absurd (cc (sym (initial-Models.reads q kq) ∙ e)));
  counts =
      insert-Counts env start-IsConsistent.owns (omega arith) 24 1 fresh table-inserts refl
        start-IsConsistent.counts;
}

outside : (p : ℕ) → p < 1048576 → contains 1048576 p ≡ false
unfolding contains
outside p h = ground arith

realloc-Reallocates_example :
    Ensures (Misses env) (Reallocates env busy 4096 100) (realloc env 4096 100 busy)
realloc-Reallocates_example =
    realloc-Reallocates env bump-IsAllocator busy busy-IsConsistent refl 4096 (omega arith) refl 100
      (omega arith) (outside 4096 (omega arith))

malloc-Allocated_example :
    Ensures (Dies env) (Allocated env busy (env.real.malloc 40) 40) (malloc env 40 busy)
malloc-Allocated_example =
    malloc-Allocated env bump-IsAllocator busy busy-IsConsistent refl 40 (omega arith)

free-Frees_example : Ensures (Misses env) (λ _ t. Frees env busy 4096 t) (free env 4096 busy)
free-Frees_example =
    free-Frees env bump-IsAllocator busy busy-IsConsistent 4096 (omega arith) refl
      (outside 4096 (omega arith))

calloc-Allocated_example :
    Ensures
      (Dies env)
      (λ p t.
        Overflows env busy 6 7 p t
        ⊎ (6 * 7 ≤ size_max) × Allocated env busy (env.real.calloc 6 7) (6 * 7) p t)
      (calloc env 6 7 busy)
calloc-Allocated_example = calloc-Allocated env bump-IsAllocator busy busy-IsConsistent refl 6 7

realloc-null-Allocated_example :
    Ensures (Dies env) (Allocated env busy (env.real.realloc 0 40) 40) (realloc env 0 40 busy)
realloc-null-Allocated_example =
    realloc-null-Allocated env bump-IsAllocator busy busy-IsConsistent refl 40 (omega arith)
      (outside 0 (omega arith))

foreign : is_tracked_allocation env 8192 busy ≡ false
unfolding is_tracked_allocation lookup_locked lookup_from probe index_for store
foreign = refl

bridge_libc_free-keeps_example :
    Ensures
      (Misses env)
      (λ _ t.
        IsConsistent env t
        × (t.registry ≡ busy.registry)
        × (t.counters ≡ busy.counters)
        × ((q : ℕ)
            → env.real.live t.heap q ≡ (if q == 8192 then false else env.real.live busy.heap q)))
      (bridge_libc_free env 8192 busy)
bridge_libc_free-keeps_example =
    bridge_libc_free-keeps env bump-IsAllocator busy busy-IsConsistent refl 8192 (omega arith)
      foreign

-- the block at 4096 is live and tracked, as another thread's would be
move_entry-Untracked_example :
    Ensures
      (λ _ _. Unit {0})
      (λ _ t. (lookup_locked t.registry 4096 ≡ none) × (t.heap ≡ busy.heap))
      (move_entry env 4096 12288 24 2 busy)
move_entry-Untracked_example =
    move_entry-Untracked env busy busy-IsConsistent.owns.placed 4096 12288 (omega arith)
      (omega arith) (λ e. omega (arith, e)) 24 2
