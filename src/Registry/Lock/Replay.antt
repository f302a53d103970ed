-- ===== src/Registry/Lock/Replay.antt =====
-- What the programs of src/mock_allocator.c under the registry lock do when no other thread is there:
-- the same as the calls that the loops are modelled by.
use libc_override.Base.{
  ℕ, zero, suc, ◌+◌, ◌≡◌, refl, ◌∙◌, sym, ap, Option-cases, inl, inr, true, false, List, [], ◌∷◌,
  Option, none, some, arith,
}
use libc_override.Registry.{
  Registry, capacity, probe, store, Found, lookup_from, insert_from, remove_from, lookup_locked,
  insert_locked, remove_locked,
}
use libc_override.Registry.Calls.{Call, insert, remove, lookup, Reply, returned, call, run, left}
use libc_override.Registry.Lock.{
  Program, done, load, save, looking, inserting, removing, steps, section,
}

unfoldable pub exec : Program → Registry → List Reply × Registry
exec (done rs) g = (rs, g)
exec (load j k) g = exec (k (g j)) g
exec (save j e p) g = exec p (store g j e)

-- a call's reply and table, handed on
abbrev handed : (Reply → Program) → Reply × Registry → List Reply × Registry
handed k (r, g) = exec (k r) g

exec-looking :
    (n i key : ℕ) (k : Reply → Program) (g : Registry)
    → exec (looking n i key k) g ≡ exec (k (returned (lookup_from n i g key))) g
unfolding exec looking lookup_from
exec-looking zero i key k g = refl
exec-looking (suc n) i key k g = ground (arith, exec-looking n (i + 1) key k g)

abbrev inserted : Registry → Option Registry → Reply × Registry
inserted g none = ((false, none), g)
inserted g (some g') = ((true, none), g')

exec-inserting :
    (n i first key size id : ℕ) (k : Reply → Program) (g : Registry)
    → exec (inserting n i first key size id k) g
      ≡ handed k (inserted g (insert_from n i first g key size id))
unfolding exec inserting insert_from
exec-inserting zero i first key size id k g = ground arith
exec-inserting (suc n) i first key size id k g = ground (
  arith,
  exec-inserting n (i + 1) first key size id k g,
  exec-inserting n (i + 1) (probe key i) key size id k g,
)

abbrev removed : Registry → Option (Found × Registry) → Reply × Registry
removed g none = ((false, none), g)
removed g (some (v, g')) = ((true, some v), g')

exec-removing :
    (n i key : ℕ) (k : Reply → Program) (g : Registry)
    → exec (removing n i key k) g ≡ handed k (removed g (remove_from n i g key))
unfolding exec removing remove_from
exec-removing zero i key k g = refl
exec-removing (suc n) i key k g = ground (arith, exec-removing n (i + 1) key k g)

looked : Registry → Option Found → Reply × Registry
looked g o = (returned o, g)

call-answers :
    (c : Call) (g : Registry)
    → call g c ≡ elim c [
      | insert key size id ↦ inserted g (insert_locked g key size id)
      | remove key ↦ removed g (remove_locked g key)
      | lookup key ↦ looked g (lookup_locked g key)
    ]
unfolding looked call
call-answers (insert key size id) g = elim (Option-cases (insert_locked g key size id)) [
  | inl e ↦ rw (e, call)
  | inr (g', e) ↦ rw (e, call)
]
call-answers (remove key) g = elim (Option-cases (remove_locked g key)) [
  | inl e ↦ rw (e, call)
  | inr (r, e) ↦ rw (e, call)
]
call-answers (lookup key) g = elim (Option-cases (lookup_locked g key)) [
  | inl e ↦ rw (e, call)
  | inr (v, e) ↦ rw (e, call)
]

-- the steps of a call, made without a break, are the call
exec-steps :
    (c : Call) (k : Reply → Program) (g : Registry) → exec (steps c k) g ≡ handed k (call g c)
unfolding steps insert_locked remove_locked lookup_locked looked
exec-steps (insert key size id) k g =
    exec-inserting capacity 0 capacity key size id k g
    ∙ sym (ap (handed k) (call-answers (insert key size id) g))
exec-steps (remove key) k g =
    exec-removing capacity 0 key k g ∙ sym (ap (handed k) (call-answers (remove key) g))
exec-steps (lookup key) k g =
    exec-looking capacity 0 key k g ∙ sym (ap (handed k) (call-answers (lookup key) g))

pub exec-section :
    (cs : List Call) (k : List Reply → Program) (g : Registry)
    → exec (section cs k) g ≡ exec (k (run g cs)) (left g cs)
unfolding section run left
exec-section [] k g = refl
exec-section (c ∷ cs) k g =
    exec-steps c (λ r. section cs (λ rs. k (r ∷ rs))) g
    ∙ exec-section cs (λ rs. k ((call g c).0 ∷ rs)) (call g c).1
