-- ===== src/Registry.antt =====
-- The allocation registry of src/mock_allocator.c: an open-addressing table with linear probing
-- and tombstones. The array is a function from indices to entries; each loop recurs on the rounds
-- left, with the C counter `i` beside it.
pub mod Probe
pub mod Lookup
pub mod Insert
pub mod Remove
pub mod Write
pub mod Refine
pub mod Count
pub mod Calls
pub mod Lock
use libc_override.Base.{ℕ, zero, suc, ◌+◌, ◌/◌, ◌%◌, ◌&&◌, Option, none, some, ◌==◌, if◌then◌else◌}

-- `ao_registry_entry`
pub record Entry : Type 0 where
  pub key : ℕ
  pub requested_size : ℕ
  pub allocation_id : ℕ

abbrev pub entry : ℕ → ℕ → ℕ → Entry
entry k s a = record { key = k; requested_size = s; allocation_id = a }

-- `g_registry`
abbrev pub Registry : Type 0
Registry = ℕ → Entry

-- `AO_REGISTRY_CAPACITY`, `AO_REGISTRY_EMPTY`, `AO_REGISTRY_TOMBSTONE`
abbrev pub capacity : ℕ
capacity = 65536

abbrev pub empty : ℕ
empty = 0

abbrev pub tombstone : ℕ
tombstone = 1

-- a write to one slot
unfoldable pub store : Registry → ℕ → Entry → Registry
store g j e i = if i == j then e else g i

-- `key >> 4`, masked by `capacity - 1`, which is a power of two less one
unfoldable pub index_for : ℕ → ℕ
index_for key = (key / 16) % capacity

-- `(index + i) & (capacity - 1)` for the index of `key`
unfoldable pub probe : ℕ → ℕ → ℕ
unfolding index_for
probe key i = (index_for key + i) % capacity

-- what the out parameters of a lookup receive
abbrev pub Found : Type 0
Found = ℕ × ℕ

abbrev pub found : Entry → Found
found e = (e.requested_size, e.allocation_id)

unfoldable pub lookup_from : ℕ → ℕ → Registry → ℕ → Option Found
lookup_from zero i g key = none
lookup_from (suc n) i g key =
    let e = g (probe key i) in
    let rest = lookup_from n (i + 1) g key in
    if e.key == empty then none else if e.key == key then some (found e) else rest

-- `none` is the C function's 0
unfoldable pub lookup_locked : Registry → ℕ → Option Found
lookup_locked g key = lookup_from capacity 0 g key

-- the rounds of `ao_registry_insert_locked`, then the code behind its loop; `first` is
-- `first_tombstone`, and `none` the C function's 0, where nothing was written
unfoldable pub insert_from : ℕ → ℕ → ℕ → Registry → ℕ → ℕ → ℕ → Option Registry
insert_from zero i first g key size id =
    if first == capacity then none else some (store g first (entry key size id))
insert_from (suc n) i first g key size id =
    let j = probe key i in
    let e = g j in
    let skip = insert_from n (i + 1) j g key size id in
    let rest = insert_from n (i + 1) first g key size id in
    if e.key == key
    then some (store g j (record e { requested_size = size; allocation_id = id }))
    else if (e.key == tombstone) && (first == capacity)
    then skip
    else if e.key == empty
    then some (store g (if first == capacity then j else first) (entry key size id))
    else rest

unfoldable pub insert_locked : Registry → ℕ → ℕ → ℕ → Option Registry
insert_locked g key size id = insert_from capacity 0 capacity g key size id

unfoldable pub remove_from : ℕ → ℕ → Registry → ℕ → Option (Found × Registry)
remove_from zero i g key = none
remove_from (suc n) i g key =
    let j = probe key i in
    let e = g j in
    let rest = remove_from n (i + 1) g key in
    if e.key == empty
    then none
    else if e.key == key
    then some
        (found e, store g j (record { key = tombstone; requested_size = 0; allocation_id = 0 }))
    else rest

unfoldable pub remove_locked : Registry → ℕ → Option (Found × Registry)
remove_locked g key = remove_from capacity 0 g key
