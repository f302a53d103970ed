-- ===== src/Registry/Insert.antt =====
-- `ao_registry_insert_locked`: where it writes, and when it reports a full table.
use libc_override.Base.{
  ℕ, zero, suc, ◌+◌, ◌≤◌, ◌<◌, ◌≡◌, ◌≢◌, refl, Option, none, some, arith, ◌⊎◌, inl, inr,
}
use mathlib.Core.Path.{subst}
use native.Mathlib.Decide.{ℕ_discrete}
use libc_override.Registry.{
  Registry, entry, capacity, empty, tombstone, probe, store, insert_from, insert_locked,
}
use libc_override.Registry.Probe.{key_at, Clear, Absent, IsKey, IsPlaced, Absent-of_empty, probe-lt}

-- Round `m` is where an entry for `k` belongs: the slot that has it, or a free slot of a table
-- without it.
pub record Target (g : Registry) (k m : ℕ) : Type 0 where
  pub within : m < capacity
  pub before : Clear g k m
  pub slot : (key_at g k m ≡ k) ⊎ ((key_at g k m ≤ tombstone) × Absent g k)

-- Every slot holds the entry of some other key.
abbrev pub Full : Registry → ℕ → Type 0
Full g k = (j : ℕ) → j < capacity → IsKey (key_at g k j) × (key_at g k j ≢ k)

-- What an insertion does: one write at the target, or nothing to a full table.
abbrev pub Inserts : Registry → ℕ → ℕ → ℕ → Option Registry → Type 0
Inserts g k size id r =
    ((m : ℕ) × (r ≡ some (store g (probe k m) (entry k size id))) × Target g k m)
    ⊎ (r ≡ none) × Full g k

-- `first_tombstone` in round `i`
abbrev First : Registry → ℕ → ℕ → ℕ → Type 0
First g k i first =
    (first ≡ capacity) × ((j : ℕ) → j < i → key_at g k j ≢ tombstone)
    ⊎ ((m : ℕ) × (m < i) × (first ≡ probe k m) × (key_at g k m ≡ tombstone))

module _ (g : Registry) (placed : IsPlaced g) {k : ℕ} (key : IsKey k) (size id : ℕ) where
  Clear-suc : {i : ℕ} → Clear g k i → key_at g k i ≢ empty → key_at g k i ≢ k → Clear g k (i + 1)
  Clear-suc {i} c ne nk j h = elim (ℕ_discrete j i) [
    | yes p ↦ rw p (ne, nk)
    | no p ↦ c j (omega arith)
  ]

  First-suc :
      {i first : ℕ}
      → First g k i first
      → key_at g k i ≢ tombstone ⊎ (first ≢ capacity)
      → First g k (i + 1) first
  First-suc {i} (inl (c, nt')) h = inl (
    c,
    λ j lt. elim (ℕ_discrete j i) [
      | yes p ↦ rw p (elim h [ inl nt ↦ nt | inr nc ↦ absurd (nc c) ])
      | no p ↦ nt' j (omega arith)
    ],
  )
  First-suc (inr (m, lt, e, t)) h = inr (m, omega arith, e, t)

  -- a free slot that the loop has passed or reached is a target once `k` is known to be absent
  free_target :
      {i m : ℕ}
      → i ≤ capacity
      → m < i
      → Clear g k i
      → key_at g k m ≤ tombstone
      → Absent g k
      → Target g k m
  free_target hi hm clear free gone = record {
    within = omega arith;
    before = λ j h. clear j (omega arith);
    slot = inr (free, gone);
  }

  -- the code behind the loop
  insert_from_end :
      (i first : ℕ)
      → i ≡ capacity
      → Clear g k i
      → First g k i first
      → Inserts g k size id (insert_from 0 i first g k size id)
  unfolding insert_from
  insert_from_end i first end clear (inl (c, nt)) =
      inr (ground arith, λ j h. ground (arith, clear j, nt j))
  insert_from_end i first end clear (inr (m, lt, e, t)) = inl (
    m,
    ground (arith, probe-lt k m),
    free_target (omega arith) lt clear (omega arith) (λ j h. (clear j (omega arith)).1),
  )

  -- the round that reaches an empty slot
  insert_from-empty :
      (n i first : ℕ)
      → i < capacity
      → key_at g k i ≡ empty
      → Clear g k i
      → First g k i first
      → Inserts g k size id (insert_from (suc n) i first g k size id)
  unfolding insert_from
  insert_from-empty n i first lt e clear (inl (c, nt)) = inl (
    i,
    ground arith,
    record {
      within = lt;
      before = clear;
      slot = inr (omega arith, Absent-of_empty g placed key lt clear e);
    },
  )
  insert_from-empty n i first lt e clear (inr (m, hm, em, t)) = inl (
    m,
    ground (arith, probe-lt k m),
    free_target (omega arith) hm clear (omega arith) (Absent-of_empty g placed key lt clear e),
  )

  abbrev Goes : ℕ → ℕ → ℕ → Type 0
  Goes n i first = Inserts g k size id (insert_from n i first g k size id)

  -- the loop, started in round `i` with nothing found before
  insert_from-Inserts :
      (n i first : ℕ) → i + n ≡ capacity → Clear g k i → First g k i first → Goes n i first
  unfolding insert_from
  insert_from-Inserts zero i first end clear f = insert_from_end i first (omega arith) clear f
  insert_from-Inserts (suc n) i first end clear f = elim (ℕ_discrete (key_at g k i) k) [
    | yes p ↦ inl (i, ground arith, record { within = omega arith; before = clear; slot = inl p })
    | no nk ↦ elim (ℕ_discrete (key_at g k i) empty) [
      | yes e ↦ insert_from-empty n i first (omega arith) e clear f
      | no ne ↦
          let clear' = Clear-suc clear ne nk in
          let rest = insert_from-Inserts n (i + 1) in
          elim (ℕ_discrete (key_at g k i) tombstone) [
            | no nt ↦
                subst (Inserts g k size id) {x = insert_from n (i + 1) first g k size id}
                  (ground arith) (rest first (omega arith) clear' (First-suc f (inl nt)))
            | yes t ↦ elim (ℕ_discrete first capacity) [
              | yes c ↦
                  subst (Inserts g k size id) {x = insert_from n (i + 1) (probe k i) g k size id}
                    (ground arith)
                    (rest (probe k i) (omega arith) clear' (inr (i, omega arith, refl, t)))
              | no c ↦
                  subst (Inserts g k size id) {x = insert_from n (i + 1) first g k size id}
                    (ground arith) (rest first (omega arith) clear' (First-suc f (inr c)))
            ]
          ]
    ]
  ]

  -- An insertion into a searchable table writes the new entry at the target of its key, and fails
  -- only if every slot holds the entry of another key.
  pub insert-Inserts : Inserts g k size id (insert_locked g k size id)
  unfolding insert_locked
  insert-Inserts =
      insert_from-Inserts capacity 0 capacity refl (λ j h. elim h [ ])
        (inl (refl, λ j h. elim h [ ]))
