-- ===== src/Mock/Resolve.antt =====
-- The resolution of the real functions, and the calls that it serves from the bootstrap heap.
use libc_override.Base.{
  ◌≡◌, refl, Bool, true, false, ◌&&◌, arith, ◌∙◌, List, [], ◌∷◌, inl, inr, Bool-cases,
}
use libc_override.Mock.Command.{State, Fatal, unresolved, exhausted, exhausted_in_realloc}
use libc_override.Mock.Ensures.{Ensures, returns, exits, bind, mono, widen}
use libc_override.Mock.World.{Env, Request, Symbol}
use libc_override.Registry.Count.{total_slots, is_live}
use libc_override.Registry.{capacity}
use libc_override.Mock.{serve, serve_all, resolve_real_functions, ensure_real_functions}

-- `t` differs from `s` in the bootstrap heap at most
pub record Alike {Heap : Type 0} (s t : State Heap) : Type 0 where
  pub heap : t.heap ≡ s.heap
  pub registry : t.registry ≡ s.registry
  pub counters : t.counters ≡ s.counters
  pub next_allocation_id : t.next_allocation_id ≡ s.next_allocation_id
  pub in_resolver : t.in_resolver ≡ s.in_resolver
  pub resolved : t.resolved ≡ s.resolved

Alike-trans : {Heap : Type 0} {s t u : State Heap} → Alike s t → Alike t u → Alike s u
Alike-trans a b = record {
  heap = b.heap ∙ a.heap;
  registry = b.registry ∙ a.registry;
  counters = b.counters ∙ a.counters;
  next_allocation_id = b.next_allocation_id ∙ a.next_allocation_id;
  in_resolver = b.in_resolver ∙ a.in_resolver;
  resolved = b.resolved ∙ a.resolved;
}

module _ (env : Env) where
  -- the four symbols are there
  abbrev pub finds_all : Bool
  finds_all =
      env.finds Symbol.malloc
      && (env.finds Symbol.calloc && (env.finds Symbol.realloc && env.finds Symbol.free))

  -- why the process may end: a symbol is missing, or the registry is full; a realloc never fills it
  abbrev pub Dies : Fatal → State env.real.Heap → Type 0
  Dies unresolved s = finds_all ≡ false
  Dies exhausted s = total_slots is_live s.registry ≡ capacity
  Dies exhausted_in_realloc s = ⊥

  -- or only for a missing symbol
  abbrev pub Misses : Fatal → State env.real.Heap → Type 0
  Misses unresolved s = finds_all ≡ false
  Misses exhausted s = ⊥
  Misses exhausted_in_realloc s = ⊥

  Misses-Dies : (e : Fatal) (s : State env.real.Heap) → Misses e s → Dies e s
  Misses-Dies unresolved s h = h
  Misses-Dies exhausted s h = absurd h
  Misses-Dies exhausted_in_realloc s h = h

  serve-Alike :
      {F : Fatal → State env.real.Heap → Type 0} (r : Request) (s : State env.real.Heap)
      → Ensures F (λ _ t. Alike s t) (serve env r s)
  unfolding serve
  serve-Alike (Request.malloc n) s = returns (ground arith)
  serve-Alike (Request.calloc m n) s = returns (ground arith)
  serve-Alike (Request.realloc p n) s = returns (ground arith)
  serve-Alike (Request.free p) s = returns (ground arith)

  -- Whatever calls `dlsym` makes, they change the bootstrap heap only.
  pub serve_all-Alike :
      {F : Fatal → State env.real.Heap → Type 0} (rs : List Request) (s : State env.real.Heap)
      → Ensures F (λ _ t. Alike s t) (serve_all env rs s)
  unfolding serve_all
  serve_all-Alike [] s = returns (ground arith)
  serve_all-Alike (r ∷ rs) s =
      bind (serve-Alike r s) λ _ t a. mono (serve_all-Alike rs t) λ _ u b. Alike-trans a b

  -- what holds behind the once-only resolution
  pub record Resolved (s t : State env.real.Heap) : Type 0 where
    pub heap : t.heap ≡ s.heap
    pub registry : t.registry ≡ s.registry
    pub counters : t.counters ≡ s.counters
    pub next_allocation_id : t.next_allocation_id ≡ s.next_allocation_id
    pub in_resolver : t.in_resolver ≡ false
    pub resolved : t.resolved ≡ true

  resolve-Resolved :
      (s : State env.real.Heap)
      → Ensures Misses (λ _ t. Resolved s t) (resolve_real_functions env s)
  unfolding resolve_real_functions
  resolve-Resolved s = bind (serve_all-Alike (env.requests Symbol.malloc) _) λ _ t₁ a₁.
      bind (serve_all-Alike (env.requests Symbol.calloc) _) λ _ t₂ a₂.
        bind (serve_all-Alike (env.requests Symbol.realloc) _) λ _ t₃ a₃.
          bind (serve_all-Alike (env.requests Symbol.free) _) λ _ t₄ a₄.
            let a = Alike-trans (Alike-trans a₁ a₂) (Alike-trans a₃ a₄) in
            elim (Bool-cases finds_all) [
              | inl all ↦ rw all (
                  returns (record {
                    heap = a.heap;
                    registry = a.registry;
                    counters = a.counters;
                    next_allocation_id = a.next_allocation_id;
                    in_resolver = refl;
                    resolved = refl;
                  }))
              | inr missing ↦ rw missing (exits missing)
            ]

  -- The resolution touches neither the real heap, the registry nor the counters. It ends the process
  -- only if a symbol is missing.
  pub ensure-Misses :
      (s : State env.real.Heap)
      → s.in_resolver ≡ false
      → Ensures Misses (λ _ t. Resolved s t) (ensure_real_functions env s)
  unfolding ensure_real_functions
  ensure-Misses s out = elim (Bool-cases s.resolved) [
    | inl yet ↦ simp yet (returns (ground arith))
    | inr not_yet ↦ simp not_yet (resolve-Resolved s)
  ]

  pub ensure-Resolved :
      (s : State env.real.Heap)
      → s.in_resolver ≡ false
      → Ensures Dies (λ _ t. Resolved s t) (ensure_real_functions env s)
  ensure-Resolved s out = widen (ensure-Misses s out) Misses-Dies
