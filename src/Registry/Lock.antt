-- ===== src/Registry/Lock.antt =====
-- The spin lock around the registry in src/mock_allocator.c, and the threads that take it.
--
-- Under the lock a thread runs a program that reads or writes one slot at a time; between two of its
-- steps the other threads make theirs.
pub mod Replay
pub mod Exclusion
pub mod Interleaved
use libc_override.Base.{
  ℕ, zero, suc, ◌+◌, ◌≡◌, ◌&&◌, Bool, true, false, List, [], ◌∷◌, ◌++◌, Option, none, some, ◌==◌,
  if◌then◌else◌,
}
use libc_override.Registry.{
  Registry, Entry, entry, capacity, empty, tombstone, probe, found, store, Found,
}
use libc_override.Registry.Calls.{Call, insert, remove, lookup, Reply, returned}
use libc_override.Registry.Refine.{initial}

-- what is left to do under the lock, a slot at a time
pub data Program : Type 0 where
  done : List Reply → Program
  load : (slot : ℕ) → (Entry → Program) → Program
  save : (slot : ℕ) → Entry → Program → Program

-- the loops of the registry, with what follows their return
unfoldable pub looking : ℕ → ℕ → ℕ → (Reply → Program) → Program
looking zero i key k = k (false, none)
looking (suc n) i key k = load (probe key i) λ e.
    let rest = looking n (i + 1) key k in
    if e.key == empty
    then k (false, none)
    else if e.key == key
    then k (true, some (found e))
    else rest

unfoldable pub inserting : ℕ → ℕ → ℕ → ℕ → ℕ → ℕ → (Reply → Program) → Program
inserting zero i first key size id k =
    if first == capacity then k (false, none) else save first (entry key size id) (k (true, none))
inserting (suc n) i first key size id k = load (probe key i) λ e.
    let j = probe key i in
    let skip = inserting n (i + 1) j key size id k in
    let rest = inserting n (i + 1) first key size id k in
    if e.key == key
    then save j (record e { requested_size = size; allocation_id = id }) (k (true, none))
    else if (e.key == tombstone) && (first == capacity)
    then skip
    else if e.key == empty
    then save (if first == capacity then j else first) (entry key size id) (k (true, none))
    else rest

unfoldable pub removing : ℕ → ℕ → ℕ → (Reply → Program) → Program
removing zero i key k = k (false, none)
removing (suc n) i key k = load (probe key i) λ e.
    let j = probe key i in
    let rest = removing n (i + 1) key k in
    if e.key == empty
    then k (false, none)
    else if e.key == key
    then save j (record { key = tombstone; requested_size = 0; allocation_id = 0 })
        (k (true, some (found e)))
    else rest

unfoldable pub steps : Call → (Reply → Program) → Program
steps (insert key size id) k = inserting capacity 0 capacity key size id k
steps (remove key) k = removing capacity 0 key k
steps (lookup key) k = looking capacity 0 key k

-- the calls of one critical section: one of them, or the two that move an entry in `realloc`
unfoldable pub section : List Call → (List Reply → Program) → Program
section [] k = k []
section (c ∷ cs) k = steps c (λ r. section cs (λ rs. k (r ∷ rs)))

-- where a thread stands
pub data Phase : Type 0 where
  outside : Phase
  spinning : List Call → Phase  -- the loop of `ao_registry_lock`
  inside : List Call → Program → Phase

-- a critical section that is over: its calls, and what they returned
abbrev pub Entered : Type 0
Entered = List Call × List Reply

pub record System : Type 0 where
  pub flag : Bool  -- `g_registry_lock`
  pub table : Registry  -- `g_registry`
  pub thread : ℕ → Phase
  pub log : List Entered  -- the sections that are over, in the order of their ends

unfoldable pub update : (ℕ → Phase) → ℕ → Phase → ℕ → Phase
update f t p u = if t == u then p else f u

-- One step of one thread. A test-and-set leaves the flag set; the loop ends where it was clear.
pub data Step (s : System) : System → Type 0 where
  ask :
      (t : ℕ) (cs : List Call)
      → s.thread t ≡ outside
      → Step s (record s { thread = update s.thread t (spinning cs) })
  spin :
      (t : ℕ) (cs : List Call)
      → s.thread t ≡ spinning cs
      → s.flag ≡ true
      → Step s (record s { flag = true })
  acquire :
      (t : ℕ) (cs : List Call)
      → s.thread t ≡ spinning cs
      → s.flag ≡ false
      → Step s (record s { flag = true; thread = update s.thread t (inside cs (section cs done)) })
  read :
      (t : ℕ) (cs : List Call) (j : ℕ) (k : Entry → Program)
      → s.thread t ≡ inside cs (load j k)
      → Step s (record s { thread = update s.thread t (inside cs (k (s.table j))) })
  write :
      (t : ℕ) (cs : List Call) (j : ℕ) (e : Entry) (p : Program)
      → s.thread t ≡ inside cs (save j e p)
      → Step s (record s { table = store s.table j e; thread = update s.thread t (inside cs p) })
  release :
      (t : ℕ) (cs : List Call) (rs : List Reply)
      → s.thread t ≡ inside cs (done rs)
      → Step s (record s {
        flag = false;
        thread = update s.thread t outside;
        log = s.log ++ (cs, rs) ∷ [];
      })

pub data Steps (s : System) : System → Type 0 where
  here : Steps s s
  later : {t u : System} → Steps s t → Step t u → Steps s u

-- no thread has called yet
abbrev pub start : System
start = record { flag = false; table = initial; thread = λ t. outside; log = [] }
