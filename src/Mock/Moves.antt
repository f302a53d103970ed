-- ===== src/Mock/Moves.antt =====
-- What a `realloc` of a block of the real heap leaves, on each of its branches.
use libc_override.Base.{
  ℕ, ◌<◌, ◌^◌, ◌≡◌, ◌≢◌, refl, Bool, true, false, Option, none, some, arith, ◌∙◌, sym, ap, inl, inr,
  ◌⊎◌, ◌&&◌, not, ◌==◌, if◌then◌else◌, Bool-cases,
}
use mathlib.Core.Path.{subst}
use libc_override.Mock.Command.{State}
use libc_override.Mock.Consistent.{
  Owns, Counts, IsConsistent, Owns-live, Models-self, insert-Owns, remove-Owns, remove-Counts,
  realloc-Counts, failed-Counts, untracked,
}
use libc_override.Mock.Ensures.{Ensures, returns}
use libc_override.Mock.Resolve.{Misses, Resolved}
use libc_override.Mock.World.{Env, IsAllocator, also}
use libc_override.Mock.{realloc_untracked}
use libc_override.Registry.Count.{
  is_live, live_size, is_live-dead, live_size-dead, total-insert, total-remove, total-le-capacity,
  Full-total,
}
use libc_override.Registry.Probe.{IsKey}
use libc_override.Registry.Refine.{Models, put, insert-Models, insert-none_iff, remove-eq-some}
use libc_override.Registry.{Registry, Found, lookup_locked, insert_locked, remove_locked}
use libc_override.Stats.{record_realloc, live_update, live_remove}

-- whether a result of the real `realloc` means that it failed
abbrev pub refused : ℕ → ℕ → Bool
refused new size = (new == 0) && not (size == 0)

-- the entry at `q` after a `realloc` of `p`, of which the registry had `old`
pub moved : (p size new : ℕ) → Option Found → (q : ℕ) → Option Found → Option Found
moved p size new none q before = before
moved p size new (some (old_size, id)) q before =
    if refused new size
    then before
    else if (q == new) && not (new == 0)
    then some (size, id)
    else if q == p
    then none
    else before

module _ (env : Env) (s : State env.real.Heap) (p size : ℕ) where
  abbrev pub relives : ℕ → ℕ → Bool
  relives new q =
      if refused new size
      then env.real.live s.heap q
      else also new (if q == p then false else env.real.live s.heap q) q

  -- a `realloc` of `p` to `size` bytes, from state `s`, that returned `new`
  pub record Reallocates (new : ℕ) (t : State env.real.Heap) : Type 0 where
    pub asked : (new, t.heap) ≡ env.real.realloc p size s.heap
    pub consistent : IsConsistent env t
    pub heap : (q : ℕ) → env.real.live t.heap q ≡ relives new q
    pub entries :
        (q : ℕ)
        → IsKey q
        → lookup_locked t.registry q
          ≡ moved p size new (lookup_locked s.registry p) q (lookup_locked s.registry q)

module _ (env : Env) (law : IsAllocator env.real) (s : State env.real.Heap)
    (ok : IsConsistent env s) (p : ℕ) (key : IsKey p) (alive : env.real.live s.heap p ≡ true)
    (size : ℕ) (small : size < 2 ^ 64) where
  module _ (t : State env.real.Heap) (r : Resolved env s t) where
    abbrev new : ℕ
    new = (env.real.realloc p size t.heap).0

    abbrev heap' : env.real.Heap
    heap' = (env.real.realloc p size t.heap).1

    heap'-live : (q : ℕ) → env.real.live heap' q ≡ relives env s p size new q
    heap'-live q =
        subst
          (λ h. env.real.live heap' q ≡ (
            if refused new size
            then env.real.live h q
            else also new (if q == p then false else env.real.live h q) q))
          r.heap (law.realloc-live p size t.heap q)

    heap'-asked : (new, heap') ≡ env.real.realloc p size s.heap
    heap'-asked = ap (env.real.realloc p size) r.heap

    -- the real function returns the same block, or one that was not live
    new-cases : (new ≢ p) → env.real.live s.heap new ≡ false
    new-cases ne =
        subst (λ h. env.real.live h new ≡ false) r.heap (law.realloc-new p size t.heap ne)

    -- what stays live: every block but the one that was given back
    keeps : (q : ℕ) → q ≢ p → env.real.live s.heap q ≡ true → env.real.live heap' q ≡ true
    keeps q ne live =
        ground
          (arith, heap'-live q, λ (is : q ≡ 0). ap (env.real.live s.heap) is ∙ law.null_dead s.heap)

    -- where the registry has no entry for `p`, or the real function has failed, it is left alone
    pub kept-Reallocates :
        {u : State env.real.Heap}
        → (lookup_locked s.registry p ≡ none) ⊎ (refused new size ≡ true)
        → u.heap ≡ heap'
        → u.registry ≡ t.registry
        → Counts env s.registry u.counters
        → Reallocates env s p size new u
    unfolding moved
    kept-Reallocates {u} why heap registry counts = record {
      asked = rw heap heap'-asked;
      consistent = record {
        owns =
            rw (registry, r.registry, heap)
              (Owns-live env heap' ok.owns λ q v found live. ground (
                arith,
                heap'-live q,
                why,
                λ (ne : q ≢ p). keeps q ne live,
                λ (is : q ≡ p). ap (lookup_locked s.registry) (sym is) ∙ found,
              ));
        counts = rw (registry, r.registry) counts;
      };
      heap = λ q. rw heap (heap'-live q);
      entries = λ q kq. rw (registry, r.registry) (ground (arith, why));
    }

    pub untracked-Reallocates :
        lookup_locked s.registry p ≡ none
        → Ensures (Misses env) (Reallocates env s p size) (realloc_untracked env p size t)
    unfolding realloc_untracked
    untracked-Reallocates absent =
        let counts = realloc-Counts env ok.counts true in
        simp r.resolved (elim (Bool-cases (refused new size)) [
          | inl e ↦ rw e (
              returns (
                kept-Reallocates (inl absent) refl refl (rw r.counters (failed-Counts env counts))))
          | inr e ↦ rw e (returns (kept-Reallocates (inl absent) refl refl (rw r.counters counts)))
        ])

    -- the table between the removal and the insertion
    module _ (old_size id : ℕ) (g : Registry)
        (held : lookup_locked s.registry p ≡ some (old_size, id))
        (removes : remove_locked s.registry p ≡ some ((old_size, id), g)) where
      between : Models (put p none (lookup_locked s.registry)) g
      between = (remove-eq-some (Models-self env ok.owns.placed) key removes).1

      between-Owns : Owns env g s.heap
      between-Owns = remove-Owns env ok.owns key s.heap removes (λ q ne live. live)

      -- the removal has left a slot free, so the insertion cannot fail
      pub room : IsKey new → insert_locked g new size id ≡ none → ⊥
      room kn full =
          let one = total-remove is_live is_live-dead s.registry ok.owns.placed key removes in
          let all =
            Full-total g new
              ((insert-none_iff (Models-self env between-Owns.placed) kn size id).0 full) in
          ground (arith, one, all, total-le-capacity s.registry)

      absent_between : IsKey new → lookup_locked g new ≡ none
      absent_between kn =
          between.reads new kn
          ∙ ground (arith, λ (ne : new ≢ p). untracked env ok.owns kn (new-cases ne))

      moved-Owns :
          IsKey new → (g' : Registry) → insert_locked g new size id ≡ some g' → Owns env g' heap'
      moved-Owns kn g' inserts =
          insert-Owns env between-Owns kn size id heap' inserts small
            (ground (arith, heap'-live new))
            λ q v kq found live. keeps q (ground (arith, sym (between.reads q kq) ∙ found)) live

      moved-Counts :
          IsKey new
          → (g' : Registry) → insert_locked g new size id ≡ some g'
          → Counts env g' (live_update old_size size (record_realloc false s.counters))
      unfolding live_update
      moved-Counts kn g' inserts =
          let n = realloc-Counts env ok.counts false in
          let blocks = total-remove is_live is_live-dead s.registry ok.owns.placed key removes in
          let bytes = total-remove live_size live_size-dead s.registry ok.owns.placed key removes in
          let new_in = absent_between kn in
          let blocks' =
            total-insert is_live is_live-dead g between-Owns.placed kn size id new_in inserts in
          let bytes' =
            total-insert live_size live_size-dead g between-Owns.placed kn size id new_in inserts in
          let bound = (ok.owns.owned p _ key held).1 in
          ground (arith, blocks, bytes, blocks', bytes', n.blocks, n.bytes)

      -- the entry that was left between is not put back when the block is gone
      pub gone-Reallocates :
          {u : State env.real.Heap}
          → new ≡ 0
          → refused new size ≡ false
          → u.heap ≡ heap'
          → u.registry ≡ g
          → u.counters ≡ live_remove old_size (record_realloc false s.counters)
          → Reallocates env s p size new u
      unfolding moved
      gone-Reallocates {u} null accepted heap registry counters = record {
        asked = rw heap heap'-asked;
        consistent = record {
          owns = rw (registry, heap) (remove-Owns env ok.owns key heap' removes keeps);
          counts =
              rw (registry, counters)
                (remove-Counts env ok.owns key _ removes (realloc-Counts env ok.counts false));
        };
        heap = λ q. rw heap (heap'-live q);
        entries = λ q kq. rw (registry, held) (ground (arith, between.reads q kq));
      }

      pub moved-Reallocates :
          {u : State env.real.Heap}
          → new ≢ 0
          → refused new size ≡ false
          → u.heap ≡ heap'
          → insert_locked g new size id ≡ some u.registry
          → u.counters ≡ live_update old_size size (record_realloc false s.counters)
          → Reallocates env s p size new u
      unfolding moved
      moved-Reallocates {u} ne accepted heap inserts counters =
          let kn : IsKey new = ground (arith, law.realloc-ne-one p size t.heap) in
          let m = insert-Models between kn size id inserts in
          record {
            asked = rw heap heap'-asked;
            consistent = record {
              owns = rw heap (moved-Owns kn u.registry inserts);
              counts = rw counters (moved-Counts kn u.registry inserts);
            };
            heap = λ q. rw heap (heap'-live q);
            entries = λ q kq. rw held (ground (arith, m.reads q kq));
          }
