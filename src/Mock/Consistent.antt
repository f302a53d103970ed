-- ===== src/Mock/Consistent.antt =====
-- The invariant that ties the registry to the real heap and to the counters of live memory.
use libc_override.Base.{
  ℕ, ◌%◌, ◌^◌, ◌<◌, ◌≡◌, ◌≢◌, refl, Bool, true, false, none, some, arith, ◌∙◌, sym, ap, inl, inr,
  Option-cases,
}
use libc_override.Mock.Command.{State}
use libc_override.Mock.World.{Env}
use libc_override.Registry.Count.{
  total_slots, is_live, live_size, is_live-dead, live_size-dead, total-insert, total-remove,
}
use libc_override.Registry.Probe.{IsKey, IsPlaced}
use libc_override.Registry.Refine.{Models, insert-Models, remove-eq-some}
use libc_override.Registry.{Registry, Found, lookup_locked, insert_locked, remove_locked}
use libc_override.Stats.{
  Counters, record_failed_allocation, record_successful_allocation, record_free, record_realloc,
  live_add, live_remove,
}

module _ (env : Env) where
  abbrev Heap : Type 0
  Heap = env.real.Heap

  -- What the registry says of a heap: each entry is a live block, with a `size_t` for its size.
  pub record Owns (g : Registry) (h : env.real.Heap) : Type 0 where
    pub placed : IsPlaced g
    pub owned :
        (q : ℕ) (v : Found)
        → IsKey q
        → lookup_locked g q ≡ some v
        → (env.real.live h q ≡ true) × (v.0 < 2 ^ 64)

  -- The counters of live memory are the number of entries and the sum of their sizes.
  pub record Counts (g : Registry) (c : Counters) : Type 0 where
    pub blocks : c.stats.live_blocks ≡ total_slots is_live g % 2 ^ 64
    pub bytes : c.stats.live_bytes ≡ total_slots live_size g % 2 ^ 64

  pub record IsConsistent (s : State env.real.Heap) : Type 0 where
    pub owns : Owns s.registry s.heap
    pub counts : Counts s.registry s.counters

  -- a table is its own specification
  pub Models-self : {g : Registry} → IsPlaced g → Models (lookup_locked g) g
  Models-self placed = record { placed = placed; reads = λ q key. refl }

  pub Owns-live :
      {g : Registry} {h : env.real.Heap} (h' : env.real.Heap)
      → Owns g h
      → ((q : ℕ) (v : Found)
          → lookup_locked g q ≡ some v
          → env.real.live h q ≡ true
          → env.real.live h' q ≡ true)
      → Owns g h'
  Owns-live h' o keeps = record {
    placed = o.placed;
    owned =
        λ q v kq found. let (alive, small) = o.owned q v kq found in (keeps q v found alive, small);
  }

  -- the entry of a block that was not tracked
  module _ {g : Registry} {h : env.real.Heap} (o : Owns g h) {p : ℕ} (key : IsKey p) where
    pub untracked : env.real.live h p ≡ false → lookup_locked g p ≡ none
    untracked dead = elim (Option-cases (lookup_locked g p)) [
      | inl e ↦ e
      | inr (v, e) ↦ cc (sym dead ∙ (o.owned p v key e).0)
    ]

  module _ {g : Registry} {h : env.real.Heap} (o : Owns g h) {p : ℕ} (key : IsKey p) where
    -- a new block enters the registry
    pub insert-Owns :
        (size id : ℕ) {g' : Registry} (h' : env.real.Heap)
        → insert_locked g p size id ≡ some g'
        → size < 2 ^ 64
        → env.real.live h' p ≡ true
        → ((q : ℕ) (v : Found)
            → IsKey q
            → lookup_locked g q ≡ some v
            → env.real.live h q ≡ true
            → env.real.live h' q ≡ true)
        → Owns g' h'
    insert-Owns size id h' e small alive keeps =
        let m = insert-Models (Models-self o.placed) key size id e in
        record {
          placed = m.placed;
          owned = λ q v kq found. ground (
            arith,
            sym (m.reads q kq) ∙ found,
            o.owned q v kq,
            keeps q v kq,
            λ (is : q ≡ p). ap (env.real.live h') is ∙ alive,
          );
        }

    pub insert-Counts :
        (size id : ℕ) {g' : Registry} (c : Counters)
        → insert_locked g p size id ≡ some g'
        → env.real.live h p ≡ false
        → Counts g c
        → Counts g' (live_add size c)
    unfolding live_add
    insert-Counts size id c e dead n =
        let new = untracked o key dead in
        let blocks = total-insert is_live is_live-dead g o.placed key size id new e in
        let bytes = total-insert live_size live_size-dead g o.placed key size id new e in
        ground (arith, blocks, bytes, n.blocks, n.bytes)

    -- a block leaves the registry
    pub remove-Owns :
        {v : Found} {g' : Registry} (h' : env.real.Heap)
        → remove_locked g p ≡ some (v, g')
        → ((q : ℕ) → q ≢ p → env.real.live h q ≡ true → env.real.live h' q ≡ true)
        → Owns g' h'
    remove-Owns h' e live =
        let (_, m) = remove-eq-some (Models-self o.placed) key e in
        record {
          placed = m.placed;
          owned =
              λ q v kq found. ground (arith, sym (m.reads q kq) ∙ found, o.owned q v kq, live q);
        }

    pub remove-Counts :
        {v : Found} {g' : Registry} (c : Counters)
        → remove_locked g p ≡ some (v, g')
        → Counts g c
        → Counts g' (live_remove v.0 c)
    unfolding live_remove
    remove-Counts {v} {g'} c e n =
        let blocks = total-remove is_live is_live-dead g o.placed key e in
        let bytes = total-remove live_size live_size-dead g o.placed key e in
        let (found, _) = remove-eq-some (Models-self o.placed) key e in
        let small = (o.owned p v key found).1 in ground (arith, blocks, bytes, n.blocks, n.bytes)

  -- the counters of traffic are no concern of the invariant
  module _ {g : Registry} {c : Counters} (n : Counts g c) where
    pub failed-Counts : Counts g (record_failed_allocation c)
    unfolding record_failed_allocation
    failed-Counts = ground (arith, n.blocks, n.bytes)

    pub successful-Counts : (kind size : ℕ) → Counts g (record_successful_allocation kind size c)
    unfolding record_successful_allocation
    successful-Counts kind size = ground (arith, n.blocks, n.bytes)

    pub free-Counts : (bypass : Bool) → Counts g (record_free bypass c)
    unfolding record_free
    free-Counts bypass = ground (arith, n.blocks, n.bytes)

    pub realloc-Counts : (bypass : Bool) → Counts g (record_realloc bypass c)
    unfolding record_realloc
    realloc-Counts bypass = ground (arith, n.blocks, n.bytes)
