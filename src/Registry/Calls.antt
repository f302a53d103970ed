-- ===== src/Registry/Calls.antt =====
-- Any sequence of calls of the registry, against the map.
use libc_override.Base.{
  ℕ, ◌+◌, ◌≤◌, ◌<◌, ◌≡◌, refl, List, [], ◌∷◌, Option, none, some, arith, inl, inr, Bool, true,
  false, Option-cases, ap, ap₂, ◌∙◌, length,
}
use libc_override.Registry.{Registry, Found, capacity, insert_locked, remove_locked, lookup_locked}
use libc_override.Registry.Count.{
  total_slots, is_live, is_live-dead, Full-total, total-empty, total-remove, total-insert_le,
}
use libc_override.Registry.Probe.{IsKey}
use libc_override.Registry.Refine.{
  Map, put, Models, initial, initial-Models, insert-Models, insert-none_iff, remove-Models,
}

-- a client's calls, with what each returns
pub data Call : Type 0 where
  insert : ℕ → ℕ → ℕ → Call
  remove : ℕ → Call
  lookup : ℕ → Call

abbrev pub call_key : Call → ℕ
call_key (insert k _ _) = k
call_key (remove k) = k
call_key (lookup k) = k

abbrev pub Reply : Type 0
Reply = Bool × Option Found

-- one call: the C result, what the out parameters receive, and the table
unfoldable pub call : Registry → Call → Reply × Registry
call g (insert k size id) = elim (insert_locked g k size id) [
  | none ↦ ((false, none), g)
  | some g' ↦ ((true, none), g')
]
call g (remove k) = elim (remove_locked g k) [
  | none ↦ ((false, none), g)
  | some (v, g') ↦ ((true, some v), g')
]
call g (lookup k) = elim (lookup_locked g k) [
  | none ↦ ((false, none), g)
  | some v ↦ ((true, some v), g)
]

abbrev pub returned : Option Found → Reply
returned none = (false, none)
returned (some v) = (true, some v)

-- the same call of the map
unfoldable pub call_map : Map → Call → Reply × Map
call_map f (insert k size id) = ((true, none), put k (some (size, id)) f)
call_map f (remove k) = (returned (f k), put k none f)
call_map f (lookup k) = (returned (f k), f)

-- the replies to a sequence of calls
unfoldable pub run : Registry → List Call → List Reply
run g [] = []
run g (c ∷ cs) = let (r, g') = call g c in r ∷ run g' cs

unfoldable pub run_map : Map → List Call → List Reply
run_map f [] = []
run_map f (c ∷ cs) = let (r, f') = call_map f c in r ∷ run_map f' cs

abbrev pub AllKeys : List Call → Type 0
AllKeys [] = Unit {0}
AllKeys (c ∷ cs) = IsKey (call_key c) × AllKeys cs

-- what one call returned and left, from a table with room
record Serves (f : Map) (g : Registry) (c : Call) (r : Reply × Registry) : Type 0 where
  replies : r.0 ≡ (call_map f c).0
  models : Models (call_map f c).1 r.1
  grows : total_slots is_live r.1 ≤ total_slots is_live g + 1

Models-put_absent :
    {f : Map} {g : Registry} (k : ℕ) → Models f g → f k ≡ none → Models (put k none f) g
Models-put_absent {f} k m e = record {
  placed = m.placed;
  reads = λ q key. m.reads q key ∙ ground (arith, λ (p : q ≡ k). ap f p);
}

module _ {f : Map} {g : Registry} (m : Models f g) (room : total_slots is_live g < capacity) where
  call-Serves : (c : Call) → IsKey (call_key c) → Serves f g c (call g c)
  unfolding call call_map
  call-Serves (insert k size id) key = elim (Option-cases (insert_locked g k size id)) [
    | inl e ↦ absurd (omega (arith, Full-total g k ((insert-none_iff m key size id).0 e)))
    | inr (g', e) ↦
        rw (e, call)
          (record {
            replies = refl;
            models = insert-Models m key size id e;
            grows = total-insert_le g m.placed key size id e;
          })
  ]
  call-Serves (remove k) key = elim (remove-Models m key) [
    | inl (l, r) ↦
        rw (r, call)
          (record { replies = rw l; models = Models-put_absent k m l; grows = omega arith })
    | inr (v, g', l, r, m') ↦
        rw (r, call)
          (record {
            replies = rw l;
            models = m';
            grows = omega (arith, total-remove is_live is_live-dead g m.placed key r);
          })
  ]
  call-Serves (lookup k) key = elim (Option-cases (lookup_locked g k)) [
    | inl e ↦
        rw (e, call) (record { replies = rw (← m.reads k key, e); models = m; grows = omega arith })
    | inr (v, e) ↦
        rw (e, call) (record { replies = rw (← m.reads k key, e); models = m; grows = omega arith })
  ]

-- the table, and the map, after a sequence of calls
unfoldable pub left : Registry → List Call → Registry
left g [] = g
left g (c ∷ cs) = left (call g c).1 cs

pub left_map : Map → List Call → Map
left_map f [] = f
left_map f (c ∷ cs) = left_map (call_map f c).1 cs

-- what a sequence of calls returned and left
pub record AllServed (f : Map) (g : Registry) (cs : List Call) : Type 0 where
  pub replies : run g cs ≡ run_map f cs
  pub models : Models (left_map f cs) (left g cs)
  pub grows : total_slots is_live (left g cs) ≤ total_slots is_live g + length cs

pub run_refines :
    (cs : List Call) {f : Map} {g : Registry}
    → Models f g
    → total_slots is_live g + length cs ≤ capacity
    → AllKeys cs
    → AllServed f g cs
unfolding run run_map left left_map
run_refines [] m room keys = record { replies = refl; models = m; grows = omega arith }
run_refines (c ∷ cs) m room (key, keys) =
    let s = call-Serves m (omega arith) c key in
    let all = run_refines cs s.models (omega (arith, s.grows)) keys in
    record {
      replies = ap₂ ◌∷◌ s.replies all.replies;
      models = all.models;
      grows = omega (arith, s.grows, all.grows);
    }

-- From the empty table no sequence of at most `capacity` calls on proper keys tells the registry
-- from the map: each returns what the map returns, and no insertion fails.
pub registry_refines :
    (cs : List Call) → length cs ≤ capacity → AllKeys cs → run initial cs ≡ run_map (λ _. none) cs
registry_refines cs few keys =
    (run_refines cs initial-Models (omega (arith, total-empty is_live is_live-dead)) keys).replies
