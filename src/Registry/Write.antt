-- ===== src/Registry/Write.antt =====
-- What the writes of the registry do to its searches: an entry put at its target, and a tombstone
-- put over an entry.
use libc_override.Base.{
  ℕ, ◌<◌, ◌≡◌, ◌≢◌, none, some, arith, inl, inr, ap, ◌∙◌, sym, ◌==◌, if◌then◌else◌, Option-cases,
}
use mathlib.Core.Path.{subst}
use native.Mathlib.Decide.{ℕ_discrete}
use libc_override.Registry.{Registry, entry, capacity, tombstone, probe, store, lookup_locked}
use libc_override.Registry.Insert.{Target}
use libc_override.Registry.Lookup.{lookup-at, lookup-Absent, lookup-eq-some, lookup-eq-none}
use libc_override.Registry.Probe.{
  key_at, Clear, Absent, IsKey, IsPlaced, Stored_unique, probe_injective,
}

module _ (g : Registry) (placed : IsPlaced g) {k : ℕ} (key : IsKey k) (m : ℕ) (t : Target g k m)
    (size id : ℕ) where
  abbrev after : Registry
  after = store g (probe k m) (entry k size id)

  -- the slot of another key that the write hits had no other key
  other_slot : (q i : ℕ) → IsKey q → q ≢ k → key_at g q i ≡ q → probe q i ≢ probe k m
  other_slot q i kq ne e hit =
      let held : key_at g k m ≡ q = ap (λ j. (g j).key) (sym hit) ∙ e in
      elim t.slot [ inl p ↦ ne (sym held ∙ p) | inr (free, _) ↦ omega arith ]

  Clear-target : (i : ℕ) → i < capacity → probe k i ≡ probe k m → Clear after k i
  unfolding store
  Clear-target i hi p j hj =
      let same = probe_injective k hi t.within p in
      ground (
        arith,
        t.before j,
        λ (hit : probe k j ≡ probe k m). probe_injective k (omega arith) t.within hit,
      )

  -- After the write every key is still found, and stored once.
  pub store-IsPlaced : IsPlaced after
  unfolding store
  store-IsPlaced q kq i hi e j hj = elim (ℕ_discrete (probe q i) (probe k m)) [
    | yes p ↦
        let is_k : k ≡ q = ground arith in
        subst (λ x. probe x i ≡ probe k m → Clear after x i) is_k (Clear-target i hi) p j hj
    | no p ↦
        let old : key_at g q i ≡ q = ground arith in
        let clear = placed q kq i hi old j hj in
        let taken : probe q j ≡ probe k m → k ≢ q = λ hit is_k. elim t.slot [
          | inl s ↦ clear.1 (ap (λ x. (g x).key) hit ∙ s ∙ is_k)
          | inr (_, gone) ↦ subst (Absent g) is_k gone i hi old
        ] in
        ground (arith, taken)
  ]

  -- The write changes what is found under its own key, and under no other.
  pub lookup-store :
      (q : ℕ)
      → IsKey q
      → lookup_locked after q ≡ (if q == k then some (size, id) else lookup_locked g q)
  unfolding store
  lookup-store q kq = elim (ℕ_discrete q k) [
    | yes p ↦ rw p (ground (arith, lookup-at after store-IsPlaced key m t.within))
    | no p ↦ elim (Option-cases (lookup_locked g q)) [
      | inl n ↦
          let gone : Absent after q = λ i hi e. ground (arith, lookup-eq-none g placed kq n i hi) in
          ground (arith, lookup-Absent after q gone)
      | inr (v, s) ↦
          let (i, hi, is, e) = lookup-eq-some g q s in
          let apart = other_slot q i kq p is in
          ground (arith, lookup-at after store-IsPlaced kq i hi)
    ]
  ]

module _ (g : Registry) (placed : IsPlaced g) {k : ℕ} (key : IsKey k) (m : ℕ)
    (within : m < capacity) (held : key_at g k m ≡ k) where
  abbrev buried : Registry
  buried = store g (probe k m) (entry tombstone 0 0)

  -- A tombstone stops no search.
  pub bury-IsPlaced : IsPlaced buried
  unfolding store
  bury-IsPlaced q kq i hi e j hj =
      let old : key_at g q i ≡ q = ground arith in ground (arith, placed q kq i hi old j hj)

  pub lookup-bury :
      (q : ℕ) → IsKey q → lookup_locked buried q ≡ (if q == k then none else lookup_locked g q)
  unfolding store
  lookup-bury q kq = elim (ℕ_discrete q k) [
    | yes p ↦
        let gone : Absent buried k = λ i hi e.
          ground (arith, λ (o : key_at g k i ≡ k). Stored_unique g placed key hi within o held) in
        rw p (ground (arith, lookup-Absent buried k gone))
    | no p ↦ elim (Option-cases (lookup_locked g q)) [
      | inl n ↦
          let gone : Absent buried q =
            λ i hi e. ground (arith, lookup-eq-none g placed kq n i hi) in
          ground (arith, lookup-Absent buried q gone)
      | inr (v, s) ↦
          let (i, hi, is, e) = lookup-eq-some g q s in
          let apart : probe q i ≢ probe k m = λ hit. p (sym is ∙ ap (λ x. (g x).key) hit ∙ held) in
          ground (arith, lookup-at buried bury-IsPlaced kq i hi)
    ]
  ]
