-- ===== src/Mock/Commit.antt =====
-- The code behind the real call of an allocation: what is returned is tracked, and the invariant
-- holds.
use libc_override.Base.{
  ℕ, ◌<◌, ◌^◌, ◌≡◌, ◌≢◌, refl, false, Option, none, some, arith, inl, inr, ◌==◌, if◌then◌else◌,
  add_word, Bool-cases,
}
use mathlib.Core.Path.{subst}
use libc_override.Mock.Command.{State, pure, ◌>>◌, Fatal, exhausted}
use libc_override.Mock.Consistent.{
  IsConsistent, Models-self, insert-Owns, insert-Counts, Owns-live, failed-Counts,
  successful-Counts,
}
use libc_override.Mock.Ensures.{Ensures, returns, exits, bind}
use libc_override.Mock.Resolve.{Dies}
use libc_override.Mock.World.{Env, also}
use libc_override.Mock.{
  Mock, count, track_allocation_or_die, next_allocation_id, insert_or_die, stored,
}
use libc_override.Registry.Count.{Full-total}
use libc_override.Registry.Probe.{IsKey, IsPlaced}
use libc_override.Registry.Refine.{insert-Models, insert-none_iff}
use libc_override.Registry.{Registry, lookup_locked, insert_locked}
use libc_override.Stats.{record_failed_allocation, record_successful_allocation, live_add}

module _ (env : Env) where
  -- a state with a new entry
  pub record Inserted (s : State env.real.Heap) (p size id : ℕ) (t : State env.real.Heap)
      : Type 0 where
    pub table : Registry
    pub inserts : insert_locked s.registry p size id ≡ some table
    pub is : t ≡ record s { registry = table }

  -- An allocation of `size` bytes, from state `s`, that returned `p`. `asks` is the one call of the
  -- real allocator.
  pub record Allocated (s : State env.real.Heap) (asks : env.real.Heap → ℕ × env.real.Heap)
      (size p : ℕ) (t : State env.real.Heap) : Type 0 where
    pub asked : (p, t.heap) ≡ asks s.heap
    pub new : env.real.live s.heap p ≡ false
    pub consistent : IsConsistent env t
    pub key : p ≢ 0 → IsKey p
    pub alive : (q : ℕ) → env.real.live t.heap q ≡ also p (env.real.live s.heap q) q
    pub tracked :
        (q : ℕ)
        → IsKey q
        → lookup_locked t.registry q
          ≡ (if q == p then some (size, s.next_allocation_id) else lookup_locked s.registry q)

  -- the code behind the real call, the same in `malloc`, `calloc` and `realloc`
  abbrev pub commit : ℕ → ℕ → ℕ → Mock env ℕ
  commit kind size p = if p == 0 then (do count env record_failed_allocation; pure 0) else do
    track_allocation_or_die env p size
    count env (record_successful_allocation kind size)
    pure p

  -- an insertion that ends the process unless it succeeds
  pub insert_or_die-Ensures :
      {F : Fatal → State env.real.Heap → Type 0} (e : Fatal) (p size id : ℕ)
      (s : State env.real.Heap)
      → (insert_locked s.registry p size id ≡ none → F e s)
      → Ensures F (λ _ t. Inserted s p size id t) (insert_or_die env e p size id s)
  unfolding insert_or_die stored
  insert_or_die-Ensures {F} e p size id s full = by_result (insert_locked s.registry p size id) refl
    where
      by_result :
          (r : Option Registry)
          → insert_locked s.registry p size id ≡ r
          → Ensures F (λ _ t. Inserted s p size id t) (stored env e r s)
      by_result none h = exits (full h)
      by_result (some g) h = returns (record { table = g; inserts = h; is = refl })

  -- a tracked block: its entry, its number and its place in the counters
  pub record Tracks (s : State env.real.Heap) (p size : ℕ) (t : State env.real.Heap) : Type 0 where
    pub table : Registry
    pub inserts : insert_locked s.registry p size s.next_allocation_id ≡ some table
    pub registry : t.registry ≡ table
    pub counters : t.counters ≡ live_add size s.counters
    pub heap : t.heap ≡ s.heap
    pub next_allocation_id : t.next_allocation_id ≡ add_word s.next_allocation_id 1

  pub track-Ensures :
      (p size : ℕ) (s : State env.real.Heap)
      → IsPlaced s.registry
      → IsKey p
      → Ensures (Dies env) (λ _ t. Tracks s p size t) (track_allocation_or_die env p size s)
  unfolding track_allocation_or_die next_allocation_id
  track-Ensures p size s placed key =
      bind
        (insert_or_die-Ensures exhausted p size s.next_allocation_id
          (record s { next_allocation_id = add_word s.next_allocation_id 1 })
          (λ e.
            Full-total s.registry p
              ((insert-none_iff (Models-self env placed) key size s.next_allocation_id).0 e)))
        λ _ t i. rw i.is (
          returns (record {
            table = i.table;
            inserts = i.inserts;
            registry = refl;
            counters = refl;
            heap = refl;
            next_allocation_id = refl;
          }))

  module _ (s : State env.real.Heap) (ok : IsConsistent env s)
      (asks : env.real.Heap → ℕ × env.real.Heap) (size : ℕ) (small : size < 2 ^ 64) (p : ℕ)
      (u : State env.real.Heap) (asked : (p, u.heap) ≡ asks s.heap)
      (registry : u.registry ≡ s.registry) (counters : u.counters ≡ s.counters)
      (id : u.next_allocation_id ≡ s.next_allocation_id)
      (live : (q : ℕ) → env.real.live u.heap q ≡ also p (env.real.live s.heap q) q)
      (new : env.real.live s.heap p ≡ false) (ne : p ≢ 1) where
    commit_null :
        p ≡ 0
        → Allocated s asks size p (record u { counters = record_failed_allocation u.counters })
    commit_null e = record {
      asked = asked;
      new = new;
      consistent = record {
        owns = rw registry (Owns-live env u.heap ok.owns (λ q v e alive. ground (arith, live q)));
        counts = rw (registry, counters) (failed-Counts env ok.counts);
      };
      key = λ nz. omega arith;
      alive = live;
      tracked = λ q kq. rw registry (ground arith);
    }

    commit_tracked :
        (kind : ℕ) {t : State env.real.Heap}
        → IsKey p
        → Tracks u p size t
        → Allocated s asks size p
            (record t { counters = record_successful_allocation kind size t.counters })
    commit_tracked kind {t} key k =
        let inserts : insert_locked s.registry p size s.next_allocation_id ≡ some k.table =
          rw (← registry, ← id) k.inserts in
        let m =
          insert-Models (Models-self env ok.owns.placed) key size s.next_allocation_id inserts in
        record {
          asked = rw k.heap asked;
          new = new;
          consistent = record {
            owns =
                rw (k.registry, k.heap)
                  (insert-Owns env ok.owns key size s.next_allocation_id u.heap inserts small
                    (ground (arith, live p)) (λ q v kq e alive. ground (arith, live q)));
            counts =
                rw (k.registry, k.counters, counters)
                  (successful-Counts env
                    (insert-Counts env ok.owns key size s.next_allocation_id s.counters inserts new
                      ok.counts)
                    kind size);
          };
          key = λ nz. key;
          alive = rw k.heap live;
          tracked = rw k.registry m.reads;
        }

    pub commit-Allocated :
        (kind : ℕ) → Ensures (Dies env) (Allocated s asks size) (commit kind size p u)
    commit-Allocated kind = elim (Bool-cases (p == 0)) [
      | inl null ↦
          let e : p ≡ 0 = ground arith in
          rw null (
            returns (
              subst
                (λ r.
                  Allocated s asks size r
                    (record u { counters = record_failed_allocation u.counters }))
                e (commit_null e)))
      | inr ptr ↦
          let key : IsKey p = ground arith in
          rw ptr (
            bind (track-Ensures p size u (rw registry ok.owns.placed) key)
              λ _ t k. returns (commit_tracked kind key k))
    ]
