-- ===== src/Mock/Realloc.antt =====
-- `realloc` of a block of the real heap, outside of the resolver.
use libc_override.Base.{
  ℕ, ◌<◌, ◌^◌, ◌≡◌, refl, Bool, true, false, Option, none, some, arith, ◌∙◌, sym, ap, inl, inr,
  ◌==◌, if◌then◌else◌, Bool-cases,
}
use mathlib.Core.Option.{some-injective}
use mathlib.Core.Path.{subst}
use libc_override.Bootstrap.{contains}
use libc_override.Mock.Command.{◌>>◌, State, pure, exhausted_in_realloc}
use libc_override.Mock.Commit.{insert_or_die-Ensures}
use libc_override.Mock.Consistent.{IsConsistent, Models-self, realloc-Counts, failed-Counts}
use libc_override.Mock.Ensures.{Ensures, returns, bind, mono}
use libc_override.Mock.Resolve.{Misses, Resolved, ensure-Misses}
use libc_override.Mock.World.{Env, IsAllocator}
use libc_override.Mock.{Mock, count, realloc, realloc_found, realloc_tracked, move_entry, forgotten}
use libc_override.Registry.Probe.{IsKey}
use libc_override.Registry.Refine.{remove-Models}
use libc_override.Registry.{Registry, Found, lookup_locked, insert_locked, remove_locked}
use libc_override.Stats.{record_failed_allocation, record_realloc, live_update, live_remove}
use libc_override.Mock.Moves.{
  refused, Reallocates, kept-Reallocates, untracked-Reallocates, room, gone-Reallocates,
  moved-Reallocates,
}

module _ (env : Env) (law : IsAllocator env.real) (s : State env.real.Heap)
    (ok : IsConsistent env s) (p : ℕ) (key : IsKey p) (alive : env.real.live s.heap p ≡ true)
    (size : ℕ) (small : size < 2 ^ 64) where
  module _ (t : State env.real.Heap) (r : Resolved env s t) where
    abbrev new : ℕ
    new = (env.real.realloc p size t.heap).0

    abbrev heap' : env.real.Heap
    heap' = (env.real.realloc p size t.heap).1

    module _ (old_size id : ℕ) (g : Registry)
        (held : lookup_locked s.registry p ≡ some (old_size, id))
        (removes : remove_locked s.registry p ≡ some ((old_size, id), g)) where
      move_entry-Ensures :
          (u : State env.real.Heap)
          → u.registry ≡ s.registry
          → Ensures
              (Misses env)
              (λ _ w.
                (w.heap ≡ u.heap)
                × (w.counters ≡ u.counters)
                × (if new == 0
                    then w.registry ≡ g
                    else insert_locked g new size id ≡ some w.registry))
              (move_entry env p new size id u)
      unfolding move_entry forgotten
      move_entry-Ensures u reg = elim (Bool-cases (new == 0)) [
        | inl e ↦ rw (reg, removes, e) (returns (refl, refl, refl))
        | inr e ↦
            rw (reg, removes, e)
              (mono
                (insert_or_die-Ensures env exhausted_in_realloc new size id
                  (record u { registry = g })
                  (λ full.
                    room env law s ok p key alive size small t r old_size id g held removes
                      (ground (arith, law.realloc-ne-one p size t.heap)) full))
                λ _ w i. rw i.is (refl, refl, i.inserts))
      ]

      -- the counters, by whether a block came back
      unfoldable settle : Bool → ℕ → Mock env ℕ
      settle null n = do
        count env (record_realloc false)
        (if null then count env (live_remove old_size) else count env (live_update old_size size))
        pure n

      settle-Reallocates :
          (null : Bool) (w : State env.real.Heap)
          → (new == 0) ≡ null
          → refused new size ≡ false
          → w.heap ≡ heap'
          → w.counters ≡ s.counters
          → (if null then w.registry ≡ g else insert_locked g new size id ≡ some w.registry)
          → Ensures (Misses env) (Reallocates env s p size) (settle null new w)
      unfolding settle
      settle-Reallocates true w e accepted heap counters table = returns (
          gone-Reallocates env law s ok p key alive size small t r old_size id g held removes
            (ground arith) accepted heap table
            (ap (λ c. live_remove old_size (record_realloc false c)) counters))
      settle-Reallocates false w e accepted heap counters table = returns (
          moved-Reallocates env law s ok p key alive size small t r old_size id g held removes
            (ground arith) accepted heap table
            (ap (λ c. live_update old_size size (record_realloc false c)) counters))

      tracked-Reallocates :
          Ensures (Misses env) (Reallocates env s p size) (realloc_tracked env p size old_size id t)
      unfolding realloc_tracked settle
      tracked-Reallocates = simp r.resolved (elim (Bool-cases (refused new size)) [
        | inl e ↦
            let null : new ≡ 0 = ground arith in
            let u : State env.real.Heap = record t {
              heap = heap';
              counters = record_failed_allocation (record_realloc false t.counters);
              resolved = true;
            } in
            rw e (
              returns (
                subst (λ n. Reallocates env s p size n u) null
                  (kept-Reallocates env law s ok p key alive size small t r {u = u} (inr e) refl
                    refl (rw r.counters (failed-Counts env (realloc-Counts env ok.counts false))))))
        | inr e ↦ rw e (
            bind (move_entry-Ensures (record t { heap = heap'; resolved = true }) r.registry)
              λ _ w (heap, counters, table).
                settle-Reallocates (new == 0) w refl e heap (counters ∙ r.counters) table)
      ])

    found-Reallocates :
        (v : Option Found)
        → lookup_locked s.registry p ≡ v
        → Ensures (Misses env) (Reallocates env s p size) (realloc_found env p size v t)
    unfolding realloc_found
    found-Reallocates none absent =
        untracked-Reallocates env law s ok p key alive size small t r absent
    found-Reallocates (some (old_size, id)) held =
        elim (remove-Models (Models-self env {g = s.registry} ok.owns.placed) key) [
          | inl (absent, _) ↦ cc
          | inr (v, g, is, removes, _) ↦
              let same = some-injective _ _ (sym is ∙ held) in
              tracked-Reallocates old_size id g held
                (removes ∙ ap (λ (x : Found). some (x, g)) same)
        ]

module _ (env : Env) (law : IsAllocator env.real) (s : State env.real.Heap)
    (ok : IsConsistent env s) (out : s.in_resolver ≡ false) where
  -- `realloc` of a live block of the real heap keeps the invariant, and returns what the real
  -- `realloc` answers to the block and the size. A tracked block changes its
  -- entry to the new address and size and keeps its number; one that comes back as `NULL` for size 0
  -- loses its entry; a failure and a block that was not tracked leave the registry alone. It ends the
  -- process only if a symbol is missing: never for want of room in the registry.
  pub realloc-Reallocates :
      (p : ℕ) (key : IsKey p) (alive : env.real.live s.heap p ≡ true) (size : ℕ)
      → (small : size < 2 ^ 64) → contains env.base p ≡ false
      → Ensures (Misses env) (Reallocates env s p size) (realloc env p size s)
  unfolding realloc
  realloc-Reallocates p key alive size small outside =
      let ptr : (p == 0) ≡ false = ground arith in
      simp (ptr, outside, out)
        (bind (ensure-Misses env s out) λ _ t r.
          subst
            (λ g.
              Ensures (Misses env) (Reallocates env s p size)
                (realloc_found env p size (lookup_locked g p) t))
            (sym r.registry)
            (found-Reallocates env law s ok p key alive size small t r (lookup_locked s.registry p)
              refl))
