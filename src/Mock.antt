-- ===== src/Mock.antt =====
-- The mock allocator of src/mock_allocator.c: `malloc`, `calloc`, `realloc` and `free` in front of
-- the real functions, with the registry and the counters. One thread runs at a time here, and the
-- code under `g_registry_lock` is one step; Registry.Lock has the threads.
pub mod World
pub mod Command
pub mod Ensures
pub mod Resolve
pub mod Consistent
pub mod Commit
pub mod Allocate
pub mod Free
pub mod Bridge
pub mod Race
pub mod Messages
pub mod Moves
pub mod Realloc
use libc_override.Base.{
  ℕ, ◌+◌, ◌-◌, ◌/◌, Bool, true, false, ◌&&◌, ◌||◌, not, List, [], ◌∷◌, Option, none, some, ltb,
  ◌==◌, if◌then◌else◌, add_word, mul_word, size_max, is_some, enomem,
}
use libc_override.Bootstrap
use libc_override.Bootstrap.{Arena}
use libc_override.Registry.{Registry, Found, insert_locked, lookup_locked, remove_locked}
use libc_override.Stats.{
  Counters, record_failed_allocation, record_successful_allocation, record_free, record_realloc,
  live_add, live_update, live_remove,
}
use World.{RealAllocator, Request, Symbol, Env}
use Command.{
  State, Run, Cmd, Fatal, unresolved, exhausted, exhausted_in_realloc, done, pure, ◌>>=◌, ◌>>◌, get,
  modify, die, and_then,
}

module _ (env : Env) where
  abbrev pub Mock : Type 0 → Type 0
  Mock = Cmd env.real.Heap

  -- an update of the counters
  abbrev pub count : (Counters → Counters) → Mock (Unit {0})
  count f = modify λ s. record s { counters = f s.counters }

  -- a call of the bootstrap heap
  abbrev pub boot : (Arena → ℕ × Arena) → Mock ℕ
  boot f s = let (p, a) = f s.arena in done p (record s { arena = a })

  -- a call through one of the real function pointers, which are null before the resolution
  abbrev pub through : {X : Type 0} → Bool → Mock X → Mock X
  through true m s = m s
  through false m s = Run.crash s

  abbrev pub real : (env.real.Heap → ℕ × env.real.Heap) → Mock ℕ
  real f s = through s.resolved (λ s. let (p, h) = f s.heap in done p (record s { heap = h })) s

  abbrev pub real_free : ℕ → Mock (Unit {0})
  real_free p s = through s.resolved (modify λ s. record s { heap = env.real.free p s.heap }) s

  -- the branch of `calloc` that the resolver takes
  unfoldable pub boot_calloc : ℕ → ℕ → Arena → ℕ × Arena
  boot_calloc nmemb size a =
      let requested_size = mul_word nmemb size in
      let (p, a') = Bootstrap.alloc env.base requested_size a in
      if p == 0
      then (p, a')
      else (p, record a' { bytes = Bootstrap.clear a'.bytes (p - env.base) requested_size })

  -- a call that `dlsym` makes, with `g_in_resolver` set; `free` returns at once
  unfoldable pub serve : Request → Mock ℕ
  serve (Request.malloc n) = boot (Bootstrap.alloc env.base n)
  serve (Request.calloc m n) = boot (boot_calloc m n)
  serve (Request.realloc p n) = boot (Bootstrap.realloc env.base p n)
  serve (Request.free p) = pure 0

  unfoldable pub serve_all : List Request → Mock (Unit {0})
  serve_all [] = pure tt
  serve_all (r ∷ rs) = do _ ← serve r; serve_all rs

  unfoldable pub resolve_real_functions : Mock (Unit {0})
  resolve_real_functions = do
    modify (λ s. record s { in_resolver = true })
    serve_all (env.requests Symbol.malloc)
    serve_all (env.requests Symbol.calloc)
    serve_all (env.requests Symbol.realloc)
    serve_all (env.requests Symbol.free)
    modify (λ s. record s { in_resolver = false })
    if env.finds Symbol.malloc
          && (env.finds Symbol.calloc && (env.finds Symbol.realloc && env.finds Symbol.free))
        then modify (λ s. record s { resolved = true })
        else die unresolved

  -- `pthread_once`
  unfoldable pub ensure_real_functions : Mock (Unit {0})
  ensure_real_functions = do s ← get; if s.resolved then pure tt else resolve_real_functions

  -- the fetch of a number happens before the insertion, whether or not that succeeds
  unfoldable pub next_allocation_id : Mock ℕ
  next_allocation_id s =
      done s.next_allocation_id (record s { next_allocation_id = add_word s.next_allocation_id 1 })

  -- the result of an insertion
  unfoldable pub stored : Fatal → Option Registry → Mock (Unit {0})
  stored e none s = die e s
  stored e (some g) s = done tt (record s { registry = g })

  unfoldable pub insert_or_die : Fatal → ℕ → ℕ → ℕ → Mock (Unit {0})
  insert_or_die e p size id s = stored e (insert_locked s.registry p size id) s

  unfoldable pub track_allocation_or_die : ℕ → ℕ → Mock (Unit {0})
  track_allocation_or_die p requested_size = do
    id ← next_allocation_id
    insert_or_die exhausted p requested_size id
    count (live_add requested_size)

  unfoldable pub malloc : ℕ → Mock ℕ
  malloc size = do
    s ← get
    if s.in_resolver then serve (Request.malloc size) else do
      ensure_real_functions
      p ← real (env.real.malloc size)
      if p == 0 then (do count record_failed_allocation; pure 0) else do
        track_allocation_or_die p size
        count (record_successful_allocation 0 size)
        pure p

  unfoldable pub calloc : ℕ → ℕ → Mock ℕ
  calloc nmemb size = do
    s ← get
    if s.in_resolver
        then serve (Request.calloc nmemb size)
        else if not (nmemb == 0) && ltb (size_max / nmemb) size
        then (do
          modify (λ s. record s { arena = record s.arena { errno = enomem } })
          count record_failed_allocation
          pure 0)
        else do
          let requested_size = mul_word nmemb size
          ensure_real_functions
          p ← real (env.real.calloc nmemb size)
          if p == 0 then (do count record_failed_allocation; pure 0) else do
            track_allocation_or_die p requested_size
            count (record_successful_allocation 1 requested_size)
            pure p

  -- the result of a removal that nobody reads
  unfoldable pub forgotten : Option (Found × Registry) → Mock (Unit {0})
  forgotten none s = done tt s
  forgotten (some (_, g)) s = done tt (record s { registry = g })

  -- the entry of a block that the real function has moved from `p` to `new`
  unfoldable pub move_entry : ℕ → ℕ → ℕ → ℕ → Mock (Unit {0})
  move_entry p new size id = do
    s ← get
    forgotten (remove_locked s.registry p)
    if new == 0 then pure tt else insert_or_die exhausted_in_realloc new size id

  unfoldable pub realloc_untracked : ℕ → ℕ → Mock ℕ
  realloc_untracked p size = do
    count (record_realloc true)
    new ← real (env.real.realloc p size)
    (if (new == 0) && not (size == 0) then count record_failed_allocation else pure tt)
    pure new

  unfoldable pub realloc_tracked : ℕ → ℕ → ℕ → ℕ → Mock ℕ
  realloc_tracked p size old_size id = do
    new ← real (env.real.realloc p size)
    if (new == 0) && not (size == 0)
        then (do count (record_realloc false); count record_failed_allocation; pure 0)
        else do
          move_entry p new size id
          count (record_realloc false)
          (if new == 0 then count (live_remove old_size) else count (live_update old_size size))
          pure new

  unfoldable pub realloc_null : ℕ → Mock ℕ
  realloc_null size = do
    new ← real (env.real.realloc 0 size)
    if new == 0 then (do count record_failed_allocation; pure 0) else do
      track_allocation_or_die new size
      count (record_successful_allocation 2 size)
      pure new

  -- what the lookup decides
  unfoldable pub realloc_found : ℕ → ℕ → Option Found → Mock ℕ
  realloc_found p size none = realloc_untracked p size
  realloc_found p size (some (old_size, id)) = realloc_tracked p size old_size id

  unfoldable pub realloc : ℕ → ℕ → Mock ℕ
  realloc p size = do
    s ← get
    if s.in_resolver || Bootstrap.contains env.base p then serve (Request.realloc p size) else do
      ensure_real_functions
      if p == 0
          then realloc_null size
          else do s ← get; realloc_found p size (lookup_locked s.registry p)

  -- what the removal decides
  unfoldable pub free_found : Option (Found × Registry) → Mock (Unit {0})
  free_found none = count (record_free true)
  free_found (some ((requested_size, _), g)) = do
    modify (λ s. record s { registry = g })
    count (record_free false)
    count (live_remove requested_size)

  unfoldable pub free : ℕ → Mock (Unit {0})
  free p = do
    s ← get
    if (p == 0) || (Bootstrap.contains env.base p || s.in_resolver)
        then pure tt
        else do ensure_real_functions; s ← get; free_found (remove_locked s.registry p); real_free p

  -- `ao_mock_is_tracked_allocation`, and `ao_alloc_bridge_owns`
  unfoldable pub is_tracked_allocation : ℕ → State env.real.Heap → Bool
  is_tracked_allocation p s = if p == 0 then false else is_some (lookup_locked s.registry p)

  unfoldable pub bridge_libc_free : ℕ → Mock (Unit {0})
  bridge_libc_free p = if p == 0 then pure tt else do ensure_real_functions; real_free p

  unfoldable pub bridge_libc_realloc : ℕ → ℕ → Mock ℕ
  bridge_libc_realloc p size = do ensure_real_functions; real (env.real.realloc p size)
