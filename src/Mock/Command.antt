-- ===== src/Mock/Command.antt =====
-- The state of the mock allocator, and the commands over it.
use libc_override.Base.{ℕ, Bool}
use libc_override.Bootstrap.{Arena}
use libc_override.Registry.{Registry}
use libc_override.Stats.{Counters}

-- The globals of src/mock_allocator.c, and the heap of the real allocator. `resolved` says that
-- the once-only resolution has run, so that the four function pointers are set.
pub record State (Heap : Type 0) : Type 0 where
  pub heap : Heap
  pub registry : Registry
  pub counters : Counters
  pub next_allocation_id : ℕ
  pub arena : Arena
  pub in_resolver : Bool
  pub resolved : Bool

-- the messages with which `ao_fatal` ends the process
pub data Fatal : Type 0 where
  unresolved exhausted exhausted_in_realloc : Fatal

pub data Run (Heap : Type 0) (A : Type 0) : Type 0 where
  done : A → State Heap → Run Heap A
  fatal : Fatal → State Heap → Run Heap A
  crash : State Heap → Run Heap A  -- a call through a function pointer that is null

abbrev pub Cmd : Type 0 → Type 0 → Type 0
Cmd Heap A = State Heap → Run Heap A

module _ {Heap : Type 0} where
  abbrev pub pure : {A : Type 0} → A → Cmd Heap A
  pure = done

  abbrev pub and_then : {A B : Type 0} → Run Heap A → (A → Cmd Heap B) → Run Heap B
  and_then (done a s) k = k a s
  and_then (fatal e s) k = fatal e s
  and_then (crash s) k = crash s

  infixl 5 ◌>>=◌ ◌>>◌
  abbrev pub ◌>>=◌ : {A B : Type 0} → Cmd Heap A → (A → Cmd Heap B) → Cmd Heap B
  m >>= k = λ s. and_then (m s) k

  abbrev pub ◌>>◌ : {B : Type 0} → Cmd Heap (Unit {0}) → Cmd Heap B → Cmd Heap B
  m >> k = m >>= λ _. k

  abbrev pub get : Cmd Heap (State Heap)
  get s = done s s

  abbrev pub modify : (State Heap → State Heap) → Cmd Heap (Unit {0})
  modify f s = done tt (f s)

  abbrev pub die : {A : Type 0} → Fatal → Cmd Heap A
  die = fatal
