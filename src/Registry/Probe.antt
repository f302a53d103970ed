-- ===== src/Registry/Probe.antt =====
-- Probe sequences: the slots that the loops over one key visit, and what makes a table searchable.
use libc_override.Base.{ℕ, ◌+◌, ◌-◌, ◌%◌, ◌<◌, ◌≡◌, ◌≢◌, arith}
use libc_override.Registry.{Registry, Entry, capacity, empty, tombstone, index_for, probe, store}

pub probe-lt : (k i : ℕ) → probe k i < capacity
unfolding probe
probe-lt k i = omega arith

-- Within one round the slots of a probe sequence are distinct.
pub probe_injective :
    (k : ℕ) {i j : ℕ} → i < capacity → j < capacity → probe k i ≡ probe k j → i ≡ j
unfolding probe
probe_injective k hi hj e = omega arith

-- the round in which the loops over `k` reach slot `j`
unfoldable pub round : ℕ → ℕ → ℕ
round k j = (j + capacity - index_for k) % capacity

pub round-lt : (k j : ℕ) → round k j < capacity
unfolding round
round-lt k j = omega arith

-- One round visits every slot.
pub probe-round : (k j : ℕ) → j < capacity → probe k (round k j) ≡ j
unfolding probe round index_for
probe-round k j h = omega arith

pub store_self : (g : Registry) (j : ℕ) (e : Entry) → store g j e j ≡ e
unfolding store
store_self g j e = ground arith

pub store_ne : (g : Registry) {i j : ℕ} (e : Entry) → i ≢ j → store g j e i ≡ g i
unfolding store
store_ne g e h = ground arith

-- the key in the slot of round `i`
abbrev pub key_at : Registry → ℕ → ℕ → ℕ
key_at g k i = (g (probe k i)).key

-- no round before `i` stops a search for `k`
abbrev pub Clear : Registry → ℕ → ℕ → Type 0
Clear g k i = (j : ℕ) → j < i → (key_at g k j ≢ empty) × (key_at g k j ≢ k)

-- `k` is in no slot
abbrev pub Absent : Registry → ℕ → Type 0
Absent g k = (i : ℕ) → i < capacity → key_at g k i ≢ k

-- `NULL` and the two markers are no keys
abbrev pub IsKey : ℕ → Type 0
IsKey k = tombstone < k

-- The table invariant: in front of an entry no search for its key stops, so each key is found, and
-- is stored once.
abbrev pub IsPlaced : Registry → Type 0
IsPlaced g = (k : ℕ) → IsKey k → (i : ℕ) → i < capacity → key_at g k i ≡ k → Clear g k i

-- `k` is stored, with `v`, in the slot of round `i`
pub record Stored (g : Registry) (k : ℕ) (e : Entry) : Type 0 where
  pub at : ℕ
  pub within : at < capacity
  pub is : g (probe k at) ≡ e
  pub keyed : e.key ≡ k

module _ (g : Registry) (placed : IsPlaced g) {k : ℕ} (key : IsKey k) where
  -- A key stands in one slot only.
  pub Stored_unique :
      {i j : ℕ} → i < capacity → j < capacity → key_at g k i ≡ k → key_at g k j ≡ k → i ≡ j
  Stored_unique {i} {j} hi hj ei ej = ground (arith, placed k key i hi ei j, placed k key j hj ej i)

  -- Behind an empty slot that a search reaches there is no entry for its key.
  pub Absent-of_empty : {i : ℕ} → i < capacity → Clear g k i → key_at g k i ≡ empty → Absent g k
  Absent-of_empty {i} hi clear e j hj ej = ground (arith, clear j, placed k key j hj ej i)
