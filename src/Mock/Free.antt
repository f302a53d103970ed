-- ===== src/Mock/Free.antt =====
-- `free` outside of the resolver.
use libc_override.Base.{
  ℕ, ◌≡◌, true, false, Option, none, some, arith, ◌∙◌, sym, ap, ◌⊎◌, ◌||◌, ◌==◌, if◌then◌else◌,
}
use mathlib.Core.Path.{subst}
use libc_override.Bootstrap.{contains}
use libc_override.Mock.Command.{State, and_then, done}
use libc_override.Mock.Consistent.{
  IsConsistent, Owns-live, Models-self, remove-Owns, remove-Counts, free-Counts,
}
use libc_override.Mock.Ensures.{Ensures, returns, bind}
use libc_override.Mock.Resolve.{Misses, Resolved, ensure-Misses}
use libc_override.Mock.World.{Env, IsAllocator}
use libc_override.Mock.{free, free_found, real_free}
use libc_override.Registry.Probe.{IsKey}
use libc_override.Registry.Refine.{remove-eq-some, remove-eq-none}
use libc_override.Registry.{Registry, Found, lookup_locked, remove_locked}
use libc_override.Stats.{Counters, record_free, live_remove}

-- what `free` adds to the counters, by what the registry had
pub count_free : Option Found → Counters → Counters
count_free none c = record_free true c
count_free (some v) c = live_remove v.0 (record_free false c)

module _ (env : Env) (s : State env.real.Heap) (p : ℕ) where
  -- a `free` of `p`, from state `s`
  pub record Frees (t : State env.real.Heap) : Type 0 where
    pub consistent : IsConsistent env t
    pub counted : t.counters ≡ count_free (lookup_locked s.registry p) s.counters
    pub gone :
        (q : ℕ)
        → IsKey q
        → lookup_locked t.registry q ≡ (if q == p then none else lookup_locked s.registry q)
    pub dead : (q : ℕ) → env.real.live t.heap q ≡ (if q == p then false else env.real.live s.heap q)

module _ (env : Env) (law : IsAllocator env.real) (s : State env.real.Heap)
    (ok : IsConsistent env s) (p : ℕ) (key : IsKey p) where
  free-dead :
      (t : State env.real.Heap)
      → Resolved env s t
      → (q : ℕ)
      → env.real.live (env.real.free p t.heap) q
        ≡ (if q == p then false else env.real.live s.heap q)
  free-dead t r q =
      subst
        (λ h.
          env.real.live (env.real.free p t.heap) q ≡ (if q == p then false else env.real.live h q))
        r.heap (law.free-live p t.heap q)

  free_found-Frees :
      (t : State env.real.Heap)
      → Resolved env s t
      → (r : Option (Found × Registry)) → remove_locked s.registry p ≡ r
      → Ensures
          (Misses env)
          (λ _ u. Frees env s p u)
          (and_then (free_found env r t) (λ _. real_free env p))
  unfolding free_found count_free
  free_found-Frees t r none e =
      let absent = remove-eq-none (Models-self env ok.owns.placed) key e in
      simp r.resolved (
        returns (record {
          consistent = record {
            owns = rw r.registry (
                Owns-live env _ ok.owns (λ q v found alive. ground (
                  arith,
                  free-dead t r q,
                  λ (is : q ≡ p). sym absent ∙ ap (lookup_locked s.registry) (sym is) ∙ found,
                )));
            counts = rw (r.registry, r.counters) (free-Counts env ok.counts true);
          };
          counted = rw absent (ap (record_free true) r.counters);
          gone = λ q kq.
              rw r.registry
                (ground (arith, λ (is : q ≡ p). ap (lookup_locked s.registry) is ∙ absent));
          dead = free-dead t r;
        }))
  free_found-Frees t r (some (v, g)) e =
      let (found, m) = remove-eq-some (Models-self env ok.owns.placed) key e in
      simp r.resolved (
        returns (record {
          consistent = record {
            owns = remove-Owns env ok.owns key _ e (λ q ne alive. ground (arith, free-dead t r q));
            counts =
                remove-Counts env ok.owns key _ e (rw r.counters (free-Counts env ok.counts false));
          };
          counted = rw found (ap (λ c. live_remove v.0 (record_free false c)) r.counters);
          gone = m.reads;
          dead = free-dead t r;
        }))

  -- `free` of a block of the real heap frees it there and takes it out of the registry. The counters
  -- tell a block that was tracked, with its size, from one that was not. The invariant is kept.
  pub free-Frees :
      s.in_resolver ≡ false
      → contains env.base p ≡ false
      → Ensures (Misses env) (λ _ t. Frees env s p t) (free env p s)
  unfolding free
  free-Frees out outside =
      let ptr : (p == 0) ≡ false = ground arith in
      simp (ptr, outside, out)
        (bind (ensure-Misses env s out) λ _ t r.
          free_found-Frees t r (remove_locked t.registry p)
            (ap (λ g. remove_locked g p) (sym r.registry)))

-- `free` of `NULL` or of a block of the bootstrap heap, and any `free` in the resolver, does nothing.
pub free_nothing :
    (env : Env) (s : State env.real.Heap) (p : ℕ)
    → (p ≡ 0) ⊎ ((contains env.base p ≡ true) ⊎ (s.in_resolver ≡ true))
    → free env p s ≡ done tt s
unfolding free
free_nothing env s p h =
    let idle : ((p == 0) || (contains env.base p || s.in_resolver)) ≡ true = ground arith in
    simp idle
