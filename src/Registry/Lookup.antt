-- ===== src/Registry/Lookup.antt =====
-- `ao_registry_lookup_locked` against the slots of the table.
use libc_override.Base.{
  ◌↔◌, ℕ, zero, suc, ◌+◌, ◌≤◌, ◌<◌, ◌≡◌, ◌≢◌, none, some, arith, refl, ap, ◌∙◌,
}
use native.Mathlib.Decide.{ℕ_discrete}
use libc_override.Registry.{Registry, Found, found, capacity, probe, lookup_from, lookup_locked}
use libc_override.Registry.Probe.{
  key_at, Clear, Absent, IsKey, IsPlaced, probe-lt, probe-round, round, round-lt,
}

module _ (g : Registry) (k : ℕ) where
  lookup_from-hit :
      (n i m : ℕ)
      → i ≤ m
      → m < i + n
      → Clear g k m
      → key_at g k m ≡ k
      → k ≢ 0
      → lookup_from n i g k ≡ some (found (g (probe k m)))
  unfolding lookup_from
  lookup_from-hit zero i m lo hi clear e ne = absurd (omega arith)
  lookup_from-hit (suc n) i m lo hi clear e ne = elim (ℕ_discrete i m) [
    | yes p ↦ rw p (ground arith)
    | no p ↦ ground (arith, clear i, lookup_from-hit n (i + 1) m)
  ]

  lookup_from-miss :
      (n i : ℕ) → ((j : ℕ) → i ≤ j → j < i + n → key_at g k j ≢ k) → lookup_from n i g k ≡ none
  unfolding lookup_from
  lookup_from-miss zero i h = refl
  lookup_from-miss (suc n) i h =
      ground (arith, h i, lookup_from-miss n (i + 1) (λ j lo hi. h j (omega arith) (omega arith)))

  -- what the loop returns stands in a slot that it visited
  lookup_from-some :
      (n i : ℕ) {v : Found}
      → lookup_from n i g k ≡ some v
      → (m : ℕ) × (m < i + n) × (key_at g k m ≡ k) × (found (g (probe k m)) ≡ v)
  unfolding lookup_from
  lookup_from-some zero i h = cc
  lookup_from-some (suc n) i {v} h = elim (ℕ_discrete (key_at g k i) k) [
    | yes p ↦ (i, omega arith, p, ground arith)
    | no p ↦
        let rest : lookup_from n (i + 1) g k ≡ some v = ground arith in
        let (m, hi, is, e) = lookup_from-some n (i + 1) rest in (m, omega arith, is, e)
  ]

module _ (g : Registry) (k : ℕ) where
  -- A key that is in no slot is not found.
  pub lookup-Absent : Absent g k → lookup_locked g k ≡ none
  unfolding lookup_locked
  lookup-Absent h = lookup_from-miss g k capacity 0 (λ j lo hi. h j (omega arith))

  -- What is found is in a slot.
  pub lookup-eq-some :
      {v : Found}
      → lookup_locked g k ≡ some v
      → (m : ℕ) × (m < capacity) × (key_at g k m ≡ k) × (found (g (probe k m)) ≡ v)
  unfolding lookup_locked
  lookup-eq-some h =
      let (m, hi, is, e) = lookup_from-some g k capacity 0 h in (m, omega arith, is, e)

module _ (g : Registry) (placed : IsPlaced g) {k : ℕ} (key : IsKey k) where
  -- In a searchable table a lookup returns the entry of the slot that has the key.
  pub lookup-at :
      (m : ℕ) → m < capacity → key_at g k m ≡ k → lookup_locked g k ≡ some (found (g (probe k m)))
  unfolding lookup_locked
  lookup-at m hi e =
      lookup_from-hit g k capacity 0 m (omega arith) (omega arith) (placed k key m hi e) e
        (omega arith)

  -- A lookup fails only for a key that is in no slot.
  pub lookup-eq-none : lookup_locked g k ≡ none → Absent g k
  lookup-eq-none h m hi e = cc (lookup-at m hi e)

  -- A lookup finds `v` exactly where some slot holds the key with `v`.
  pub lookup_iff :
      (v : Found)
      → (lookup_locked g k ≡ some v)
        ↔ ((j : ℕ) × (j < capacity) × ((g j).key ≡ k) × (found (g j) ≡ v))
  lookup_iff v = (
    λ h. let (m, hi, is, e) = lookup-eq-some g k h in (probe k m, probe-lt k m, is, e),
    λ (j, hi, is, e).
        let at = probe-round k j hi in
        lookup-at (round k j) (round-lt k j) (ap (λ i. (g i).key) at ∙ is)
        ∙ ap some (ap (λ i. found (g i)) at ∙ e),
  )
