-- ===== src/Registry/Remove.antt =====
-- `ao_registry_remove_locked`: a removal finds what a lookup finds, and puts a tombstone there.
use libc_override.Base.{
  ℕ, zero, suc, ◌+◌, ◌<◌, ◌≡◌, refl, Option, none, some, arith, ◌⊎◌, inl, inr, ◌∙◌,
}
use native.Mathlib.Decide.{ℕ_discrete}
use libc_override.Registry.{
  Registry, Found, found, entry, capacity, empty, tombstone, probe, store, lookup_from,
  lookup_locked, remove_from, remove_locked,
}
use libc_override.Registry.Probe.{key_at}

-- The result `r` of a removal of `k`, against the result `l` of a lookup: the same entry, and the
-- table with a tombstone in its slot.
abbrev pub Removes : Registry → ℕ → Option Found → Option (Found × Registry) → Type 0
Removes g k l r =
    (l ≡ none) × (r ≡ none)
    ⊎ ((v : Found) × (m : ℕ) × (l ≡ some v)
        × (r ≡ some (v, store g (probe k m) (entry tombstone 0 0)))
        × (m < capacity)
        × (key_at g k m ≡ k))

module _ (g : Registry) (k : ℕ) where
  remove_from-Removes :
      (n i : ℕ) → i + n ≡ capacity → Removes g k (lookup_from n i g k) (remove_from n i g k)
  unfolding lookup_from remove_from
  remove_from-Removes zero i end = inl (refl, refl)
  remove_from-Removes (suc n) i end = elim (ℕ_discrete (key_at g k i) empty) [
    | yes e ↦ inl (ground arith, ground arith)
    | no ne ↦ elim (ℕ_discrete (key_at g k i) k) [
      | yes p ↦ inr (found (g (probe k i)), i, ground arith, ground arith, omega arith, p)
      | no np ↦
          let l : lookup_from (suc n) i g k ≡ lookup_from n (i + 1) g k = ground arith in
          let r : remove_from (suc n) i g k ≡ remove_from n (i + 1) g k = ground arith in
          elim (remove_from-Removes n (i + 1) (omega arith)) [
            | inl (a, b) ↦ inl (l ∙ a, r ∙ b)
            | inr (v, m, a, b, hm, is) ↦ inr (v, m, l ∙ a, r ∙ b, hm, is)
          ]
    ]
  ]

  -- A removal reports what a lookup finds, and buries the slot that has it.
  pub remove-Removes : Removes g k (lookup_locked g k) (remove_locked g k)
  unfolding lookup_locked remove_locked
  remove-Removes = remove_from-Removes capacity 0 refl
