-- ===== src/Mock/Bridge.antt =====
-- The bridge of the allocator: what it says of blocks, and its `free` behind the registry's back.
use libc_override.Base.{
  ℕ, ◌<◌, ◌^◌, ◌≡◌, refl, true, false, none, arith, ◌∙◌, sym, ap, not, ◌==◌, if◌then◌else◌, is_some,
  Bool-cases, inl, inr, Option-cases,
}
use mathlib.Core.Path.{subst}
use libc_override.Mock.Allocate.{malloc-Allocated}
use libc_override.Mock.Command.{State}
use libc_override.Mock.Consistent.{IsConsistent, Owns-live}
use libc_override.Mock.Ensures.{Ensures, returns, bind, mono}
use libc_override.Mock.Resolve.{Dies, Misses, ensure-Misses}
use libc_override.Mock.World.{Env, IsAllocator}
use libc_override.Mock.{malloc, is_tracked_allocation, bridge_libc_free}
use libc_override.Registry.Probe.{IsKey}
use libc_override.Registry.{lookup_locked}

module _ (env : Env) where
  untracked-lookup :
      (s : State env.real.Heap) (p : ℕ)
      → IsKey p
      → is_tracked_allocation env p s ≡ false
      → lookup_locked s.registry p ≡ none
  unfolding is_tracked_allocation
  untracked-lookup s p key e = elim (Option-cases (lookup_locked s.registry p)) [
    | inl absent ↦ absent
    | inr (v, found) ↦ ground (arith, e, ap is_some found)
  ]

module _ (env : Env) (law : IsAllocator env.real) (s : State env.real.Heap)
    (ok : IsConsistent env s) (out : s.in_resolver ≡ false) where
  -- The bridge owns what `malloc` has returned, and not `NULL`.
  pub tracked-malloc :
      (size : ℕ)
      → size < 2 ^ 64
      → Ensures (Dies env) (λ p t. is_tracked_allocation env p t ≡ not (p == 0)) (malloc env size s)
  unfolding is_tracked_allocation
  tracked-malloc size small = mono (malloc-Allocated env law s ok out size small) λ p t a.
      elim (Bool-cases (p == 0)) [
        | inl e ↦ rw e refl
        | inr e ↦
            let self : (p == p) ≡ true = ground arith in
            rw (e, a.tracked p (a.key (ground arith)), self) refl
      ]

  -- The bridge's `free` of a block that the registry does not have, as scanf makes it, frees it in the
  -- real heap, leaves the registry and the counters alone and keeps the invariant.
  pub bridge_libc_free-keeps :
      (p : ℕ)
      → IsKey p
      → is_tracked_allocation env p s ≡ false
      → Ensures
          (Misses env)
          (λ _ t.
            IsConsistent env t
            × (t.registry ≡ s.registry)
            × (t.counters ≡ s.counters)
            × ((q : ℕ)
                → env.real.live t.heap q ≡ (if q == p then false else env.real.live s.heap q)))
          (bridge_libc_free env p s)
  unfolding bridge_libc_free
  bridge_libc_free-keeps p key foreign =
      let ptr : (p == 0) ≡ false = ground arith in
      let absent = untracked-lookup env s p key foreign in
      simp ptr (
        bind (ensure-Misses env s out) λ _ t r. simp r.resolved (
          let dead = λ (q : ℕ).
            subst
              (λ h.
                env.real.live (env.real.free p t.heap) q
                ≡ (if q == p then false else env.real.live h q))
              r.heap (law.free-live p t.heap q) in
          returns (
            record {
              owns = rw r.registry (
                  Owns-live env _ ok.owns λ q v found alive. ground (
                    arith,
                    dead q,
                    λ (is : q ≡ p). sym absent ∙ ap (lookup_locked s.registry) (sym is) ∙ found,
                  ));
              counts = rw (r.registry, r.counters) ok.counts;
            },
            r.registry,
            r.counters,
            dead,
          )))
