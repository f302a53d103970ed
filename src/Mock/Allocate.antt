-- ===== src/Mock/Allocate.antt =====
-- `malloc` and `calloc` outside of the resolver.
use libc_override.Base.{
  ℕ, zero, suc, ◌*◌, ◌/◌, ◌≤◌, ◌<◌, ◌^◌, ◌≡◌, ◌⊎◌, refl, ap, ◌∙◌, true, false, arith, inl, inr,
  ◌&&◌, ◌==◌, not, ltb, Bool-cases, mul_word, size_max, enomem,
}
use mathlib.Core.Path.{subst}
use native.Mathlib.Decide.{dec_lt}
use native.Mathlib.Nat.{le-div_iff_mul-le, mod-eq_of_lt}
use libc_override.Mock.Commit.{Allocated, commit-Allocated}
use libc_override.Mock.Command.{State}
use libc_override.Mock.Consistent.{IsConsistent, failed-Counts}
use libc_override.Mock.Ensures.{Ensures, returns, bind, mono}
use libc_override.Mock.Resolve.{Dies, ensure-Resolved}
use libc_override.Mock.World.{Env, IsAllocator, also}
use libc_override.Bootstrap.{contains}
use libc_override.Mock.{malloc, calloc, realloc, realloc_null}

-- the guard of `calloc`
fits : (m n : ℕ) → (not (m == 0) && ltb (size_max / m) n) ≡ false → m * n ≤ size_max
fits zero n h = omega arith
fits (suc m) n h =
    let bound : n ≤ size_max / suc m = ground arith in
    omega (arith, (le-div_iff_mul-le {k = suc m} (omega arith)).0 bound)

overflows : (m n : ℕ) → (not (m == 0) && ltb (size_max / m) n) ≡ true → size_max < m * n
overflows zero n h = ground arith
overflows (suc m) n h =
    let bound : ¬ (n ≤ size_max / suc m) = ground arith in
    elim (dec_lt size_max (suc m * n)) [
      | yes p ↦ p
      | no p ↦ absurd (bound ((le-div_iff_mul-le {k = suc m} (omega arith)).1 (omega arith)))
    ]

module _ (env : Env) (s : State env.real.Heap) where
  -- a product that does not fit a `size_t`
  pub record Overflows (m n p : ℕ) (t : State env.real.Heap) : Type 0 where
    pub large : size_max < m * n
    pub null : p ≡ 0
    pub errno : t.arena.errno ≡ enomem
    pub registry : t.registry ≡ s.registry
    pub heap : t.heap ≡ s.heap
    pub consistent : IsConsistent env t

module _ (env : Env) (law : IsAllocator env.real) (s : State env.real.Heap)
    (ok : IsConsistent env s) (out : s.in_resolver ≡ false) where
  -- `malloc` keeps the invariant. It returns what the real `malloc` answers to the size: a block that
  -- was not live before, which is tracked with its size under the next number, or `NULL`, which leaves
  -- the registry alone. It ends the process only if a symbol is missing or the registry is full, and
  -- never calls through a pointer that is not resolved.
  pub malloc-Allocated :
      (size : ℕ)
      → size < 2 ^ 64
      → Ensures (Dies env) (Allocated env s (env.real.malloc size) size) (malloc env size s)
  unfolding malloc
  malloc-Allocated size small = simp out (
      bind (ensure-Resolved env s out) λ _ t r. simp r.resolved (
        commit-Allocated env s ok (env.real.malloc size) size small (env.real.malloc size t.heap).0
          _ (ap (env.real.malloc size) r.heap) r.registry r.counters r.next_allocation_id
          (λ q.
            subst
              (λ h.
                env.real.live (env.real.malloc size t.heap).1 q
                ≡ also (env.real.malloc size t.heap).0 (env.real.live h q) q)
              r.heap (law.malloc-live size t.heap q))
          (subst (λ h. env.real.live h (env.real.malloc size t.heap).0 ≡ false) r.heap
            (law.malloc-new size t.heap))
          (law.malloc-ne-one size t.heap) 0))

  -- If the product of its arguments fits a `size_t`, `calloc` returns what the real `calloc` answers
  -- to them, and tracks a block, which is new, with the product for its size, as `malloc` does. If
  -- not, it returns `NULL` with ENOMEM, and asks the real allocator for nothing.
  pub calloc-Allocated :
      (m n : ℕ)
      → Ensures
          (Dies env)
          (λ p t.
            Overflows env s m n p t
            ⊎ (m * n ≤ size_max) × Allocated env s (env.real.calloc m n) (m * n) p t)
          (calloc env m n s)
  unfolding calloc
  calloc-Allocated m n = elim (Bool-cases (not (m == 0) && ltb (size_max / m) n)) [
    | inl over ↦
        simp (out, over)
          (returns (
            inl (record {
              large = overflows m n over;
              null = refl;
              errno = refl;
              registry = refl;
              heap = refl;
              consistent = record { owns = ok.owns; counts = failed-Counts env ok.counts };
            })))
    | inr under ↦
        let bound = fits m n under in
        let exact : mul_word m n ≡ m * n = mod-eq_of_lt (omega arith) in
        simp (out, under, exact)
          (bind (ensure-Resolved env s out) λ _ t r. simp r.resolved (
            mono
              (commit-Allocated env s ok (env.real.calloc m n) (m * n) (omega arith)
                (env.real.calloc m n t.heap).0 _ (ap (env.real.calloc m n) r.heap) r.registry
                r.counters r.next_allocation_id
                (λ q.
                  subst
                    (λ h.
                      env.real.live (env.real.calloc m n t.heap).1 q
                      ≡ also (env.real.calloc m n t.heap).0 (env.real.live h q) q)
                    r.heap (law.calloc-live m n t.heap q))
                (subst (λ h. env.real.live h (env.real.calloc m n t.heap).0 ≡ false) r.heap
                  (law.calloc-new m n t.heap))
                (law.calloc-ne-one m n t.heap) 1)
              λ p u a. inr (bound, a)))
  ]

  -- `realloc` of `NULL` returns what the real `realloc` of `NULL` answers to the size, and tracks a
  -- block, which is new, with the size, as `malloc` does.
  pub realloc-null-Allocated :
      (size : ℕ)
      → size < 2 ^ 64
      → contains env.base 0 ≡ false
      → Ensures (Dies env) (Allocated env s (env.real.realloc 0 size) size) (realloc env 0 size s)
  unfolding realloc realloc_null
  realloc-null-Allocated size small outside =
      simp (out, outside)
        (bind (ensure-Resolved env s out) λ _ t r. simp r.resolved (
          commit-Allocated env s ok (env.real.realloc 0 size) size small
            (env.real.realloc 0 size t.heap).0 _ (ap (env.real.realloc 0 size) r.heap) r.registry
            r.counters r.next_allocation_id
            (λ q.
              subst
                (λ h.
                  env.real.live (env.real.realloc 0 size t.heap).1 q
                  ≡ also (env.real.realloc 0 size t.heap).0 (env.real.live h q) q)
                r.heap
                (ground (
                  arith,
                  law.realloc-live 0 size t.heap q,
                  λ (is : q ≡ 0). ap (env.real.live t.heap) is ∙ law.null_dead t.heap,
                )))
            (subst (λ h. env.real.live h (env.real.realloc 0 size t.heap).0 ≡ false) r.heap
              (ground (
                arith,
                law.realloc-new 0 size t.heap,
                λ (is : (env.real.realloc 0 size t.heap).0 ≡ 0).
                    ap (env.real.live t.heap) is ∙ law.null_dead t.heap,
              )))
            (law.realloc-ne-one 0 size t.heap) 2))
