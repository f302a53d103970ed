-- ===== src/Registry/Count.antt =====
-- Sums over the slots of the registry: how many entries are live, and how many bytes they ask for.
use libc_override.Base.{
  ℕ, zero, suc, ◌+◌, ◌*◌, ◌≤◌, ◌<◌, ◌≡◌, refl, none, some, arith, inl, inr, ap, ◌∙◌, sym, ltb,
  if◌then◌else◌,
}
use mathlib.Core.Option.{some-injective}
use mathlib.Core.Path.{subst}
use native.Mathlib.Decide.{ℕ_discrete}
use libc_override.Registry.{
  Registry, Entry, Found, entry, capacity, empty, tombstone, probe, store, lookup_locked,
  insert_locked, remove_locked,
}
use libc_override.Registry.Insert.{Full, insert-Inserts}
use libc_override.Registry.Lookup.{lookup-at, lookup-eq-none}
use libc_override.Registry.Probe.{IsKey, IsPlaced, probe-lt, probe-round, round, round-lt}
use libc_override.Registry.Remove.{remove-Removes}

-- the sum of `w` over the first `n` slots
pub total : (Entry → ℕ) → ℕ → Registry → ℕ
total w zero g = 0
total w (suc n) g = w (g n) + total w n g

module _ (w : Entry → ℕ) (g : Registry) where
  total-store_beyond : (n j : ℕ) (e : Entry) → n ≤ j → total w n (store g j e) ≡ total w n g
  unfolding total store
  total-store_beyond zero j e h = refl
  total-store_beyond (suc n) j e h = ground (arith, total-store_beyond n j e)

  total-store :
      (n j : ℕ) (e : Entry) → j < n → total w n (store g j e) + w (g j) ≡ total w n g + w e
  unfolding total store
  total-store zero j e h = absurd (omega arith)
  total-store (suc n) j e h = elim (ℕ_discrete n j) [
    | yes p ↦ rw p (ground (arith, total-store_beyond j j e))
    | no p ↦ ground (arith, total-store n j e)
  ]

  total-constant : (c n : ℕ) → ((j : ℕ) → j < n → w (g j) ≡ c) → total w n g ≡ n * c
  unfolding total
  total-constant c zero h = omega arith
  total-constant c (suc n) h =
      omega (arith, h n (omega arith), total-constant c n (λ j lt. h j (omega arith)))

-- the sum over the whole table
pub total_slots : (Entry → ℕ) → Registry → ℕ
total_slots w g = total w capacity g

module _ (w : Entry → ℕ) (dead : (e : Entry) → e.key ≤ tombstone → w e ≡ 0) (g : Registry)
    (placed : IsPlaced g) {k : ℕ} (key : IsKey k) where
  -- the insertion of a new key adds its entry to the sum
  pub total-insert :
      (size id : ℕ) {g' : Registry}
      → lookup_locked g k ≡ none
      → insert_locked g k size id ≡ some g'
      → total_slots w g' ≡ total_slots w g + w (entry k size id)
  unfolding total_slots
  total-insert size id {g'} new h = elim (insert-Inserts g placed key size id) [
    | inr (e, _) ↦ cc
    | inl (at, e, t) ↦
        let same = some-injective _ _ (sym e ∙ h) in
        let gone = lookup-eq-none g placed key new at t.within in
        let free : w (g (probe k at)) ≡ 0 = elim t.slot [
          | inl p ↦ absurd (gone p)
          | inr (le, _) ↦ dead _ le
        ] in
        rw (← same)
          (omega (arith, total-store w g capacity (probe k at) (entry k size id) (probe-lt k at)))
  ]

  -- a removal takes its entry from the sum
  pub total-remove :
      {v : Found} {g' : Registry}
      → remove_locked g k ≡ some (v, g')
      → total_slots w g' + w (entry k v.0 v.1) ≡ total_slots w g
  unfolding total_slots
  total-remove {v} {g'} h = elim (remove-Removes g k) [
    | inl (_, r) ↦ cc
    | inr (u, at, l, r, hm, is) ↦
        let same = some-injective _ _ (sym r ∙ h) in
        let at_u = some-injective _ _ (sym (lookup-at g placed key at hm is) ∙ l) in
        let is_v = at_u ∙ ap (λ (x : Found × Registry). x.0) same in
        let old : g (probe k at) ≡ entry k v.0 v.1 = ground arith in
        rw (← ap (λ (x : Found × Registry). x.1) same, ← old)
          (omega (
            arith,
            dead (entry tombstone 0 0),
            total-store w g capacity (probe k at) (entry tombstone 0 0) (probe-lt k at),
          ))
  ]

-- The table that the program starts with holds nothing.
pub total-empty :
    (w : Entry → ℕ)
    → ((e : Entry) → e.key ≤ tombstone → w e ≡ 0)
    → total_slots w (λ j. entry empty 0 0) ≡ 0
unfolding total_slots
total-empty w dead =
    total-constant w (λ j. entry empty 0 0) 0 capacity (λ j h. dead (entry empty 0 0) (omega arith))
    ∙ omega arith

-- one for each entry, and its bytes
abbrev pub is_live : Entry → ℕ
is_live e = if ltb tombstone e.key then 1 else 0

abbrev pub live_size : Entry → ℕ
live_size e = if ltb tombstone e.key then e.requested_size else 0

pub is_live-dead : (e : Entry) → e.key ≤ tombstone → is_live e ≡ 0
is_live-dead e h = ground arith

pub live_size-dead : (e : Entry) → e.key ≤ tombstone → live_size e ≡ 0
live_size-dead e h = ground arith

total-le : (g : Registry) (n : ℕ) → total is_live n g ≤ n
unfolding total
total-le g zero = omega arith
total-le g (suc n) = ground (arith, total-le g n)

-- There are no more entries than slots.
pub total-le-capacity : (g : Registry) → total_slots is_live g ≤ capacity
unfolding total_slots
total-le-capacity g = total-le g capacity

-- A table that refuses a key has as many entries as slots.
pub Full-total : (g : Registry) (k : ℕ) → Full g k → total_slots is_live g ≡ capacity
unfolding total_slots
Full-total g k full =
    total-constant is_live g 1 capacity (λ j h.
      let (live, _) = full (round k j) (round-lt k j) in
      let at = probe-round k j h in
      let live' : IsKey (g j).key = subst (λ i. IsKey (g i).key) at live in ground arith)
    ∙ refl

-- An insertion adds one entry at most.
pub total-insert_le :
    (g : Registry)
    → IsPlaced g
    → {k : ℕ} → IsKey k
    → (size id : ℕ) {g' : Registry} → insert_locked g k size id ≡ some g'
    → total_slots is_live g' ≤ total_slots is_live g + 1
unfolding total_slots
total-insert_le g placed {k} key size id h = elim (insert-Inserts g placed key size id) [
  | inr (e, _) ↦ cc
  | inl (at, e, t) ↦
      let new : is_live (entry k size id) ≡ 1 = ground arith in
      rw (← some-injective _ _ (sym e ∙ h)) (
        omega
          (arith, total-store is_live g capacity (probe k at) (entry k size id) (probe-lt k at)))
]
