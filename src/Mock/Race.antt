-- ===== src/Mock/Race.antt =====
-- The code behind the real `realloc`, in a state that other threads have changed meanwhile.
use libc_override.Base.{ℕ, ◌≡◌, ◌≢◌, refl, false, Option, none, some, arith, ◌∙◌, inl, inr, ◌==◌}
use libc_override.Mock.Command.{State, Fatal, exhausted_in_realloc}
use libc_override.Mock.Consistent.{Models-self}
use libc_override.Mock.Ensures.{Ensures, returns, exits}
use libc_override.Mock.World.{Env}
use libc_override.Mock.{move_entry, forgotten, insert_or_die, stored}
use libc_override.Registry.Probe.{IsKey, IsPlaced}
use libc_override.Registry.Refine.{Models, put, Map, insert-Models, remove-Models}
use libc_override.Registry.{Registry, lookup_locked, insert_locked}

module _ (env : Env) (u : State env.real.Heap) (placed : IsPlaced u.registry) (p new : ℕ)
    (key : IsKey p) (key' : IsKey new) (ne : new ≢ p) (size id : ℕ) where
  -- nothing is said of a run that ends the process
  abbrev pub Whatever : Fatal → State env.real.Heap → Type 0
  Whatever e s = Unit {0}

  -- the block at `p` has no entry, and the heap is the same
  abbrev pub Untracked : State env.real.Heap → Type 0
  Untracked t = (lookup_locked t.registry p ≡ none) × (t.heap ≡ u.heap)

  moved-Untracked :
      (f : Map) (w : State env.real.Heap)
      → Models f w.registry
      → f p ≡ none
      → w.heap ≡ u.heap
      → Ensures Whatever (λ _ t. Untracked t) (insert_or_die env exhausted_in_realloc new size id w)
  unfolding insert_or_die stored
  moved-Untracked f w m absent same = by_result (insert_locked w.registry new size id) refl
    where
      by_result :
          (r : Option Registry)
          → insert_locked w.registry new size id ≡ r
          → Ensures Whatever (λ _ t. Untracked t) (stored env exhausted_in_realloc r w)
      by_result none e = exits tt
      by_result (some g) e =
          let m' = insert-Models m key' size id e in
          returns (m'.reads p key ∙ ground (arith, absent), same)

  -- The entry of a block that `realloc` has moved from `p` is taken out whoever has `p` by then: in
  -- any searchable table the block at `p` is not tracked afterwards, even if another thread was given
  -- `p` meanwhile, has inserted it, and it is live.
  pub move_entry-Untracked : Ensures Whatever (λ _ t. Untracked t) (move_entry env p new size id u)
  unfolding move_entry forgotten
  move_entry-Untracked =
      let some_block : (new == 0) ≡ false = ground arith in
      elim (remove-Models (Models-self env {g = u.registry} placed) key) [
        | inl (absent, removes) ↦
            rw (removes, some_block)
              (moved-Untracked (lookup_locked u.registry) u (Models-self env placed) absent refl)
        | inr (v, g, found, removes, m) ↦
            rw (removes, some_block)
              (moved-Untracked (put p none (lookup_locked u.registry)) (record u { registry = g }) m
                (ground arith) refl)
      ]
