-- ===== src/Registry/Refine.antt =====
-- The registry against its specification, a finite map from addresses.
use libc_override.Base.{
  ℕ, ◌≡◌, ◌↔◌, Option, none, some, arith, ◌⊎◌, inl, inr, ◌==◌, ◌∙◌, sym, ap, if◌then◌else◌,
}
use mathlib.Core.Option.{some-injective}
use mathlib.Core.Path.{subst}
use libc_override.Registry.{
  Registry, Found, entry, empty, lookup_locked, insert_locked, remove_locked,
}
use libc_override.Registry.Insert.{Full, insert-Inserts}
use libc_override.Registry.Lookup.{lookup-Absent}
use libc_override.Registry.Probe.{IsKey, IsPlaced}
use libc_override.Registry.Remove.{remove-Removes}
use libc_override.Registry.Write.{store-IsPlaced, lookup-store, bury-IsPlaced, lookup-bury}

-- the specification
abbrev pub Map : Type 0
Map = ℕ → Option Found

abbrev pub put : ℕ → Option Found → Map → Map
put k v f q = if q == k then v else f q

-- `g` is searchable, and stands for `f`
pub record Models (f : Map) (g : Registry) : Type 0 where
  pub placed : IsPlaced g
  pub reads : (q : ℕ) → IsKey q → lookup_locked g q ≡ f q

-- `g_registry` when the program starts
abbrev pub initial : Registry
initial j = entry empty 0 0

pub initial-Models : Models (λ _. none) initial
initial-Models = record {
  placed = λ k key i hi e. absurd (omega arith);
  reads = λ q key. lookup-Absent initial q (λ i hi e. omega arith);
}

module _ {f : Map} {g : Registry} (m : Models f g) {k : ℕ} (key : IsKey k) where
  -- An insertion that succeeds is the map's `put`.
  pub insert-Models :
      (size id : ℕ) {g' : Registry}
      → insert_locked g k size id ≡ some g'
      → Models (put k (some (size, id)) f) g'
  insert-Models size id {g'} h = elim (insert-Inserts g m.placed key size id) [
    | inl (at, e, t) ↦
        let same = some-injective _ _ (sym e ∙ h) in
        subst (Models (put k (some (size, id)) f)) same (record {
          placed = store-IsPlaced g m.placed key at t size id;
          reads = λ q kq.
              lookup-store g m.placed key at t size id q kq
              ∙ ap (λ v. if q == k then some (size, id) else v) (m.reads q kq);
        })
    | inr (e, _) ↦ cc
  ]

  -- An insertion fails exactly when every slot holds the entry of another key.
  pub insert-none_iff : (size id : ℕ) → (insert_locked g k size id ≡ none) ↔ Full g k
  insert-none_iff size id = elim (insert-Inserts g m.placed key size id) [
    | inl (at, e, t) ↦ (λ h. cc, λ full. ground (arith, t.slot, full at t.within))
    | inr (e, full) ↦ (λ h. full, λ h. e)
  ]

  -- A removal returns what the map has, and is the map's removal.
  pub remove-Models :
      ((f k ≡ none) × (remove_locked g k ≡ none))
      ⊎ ((v : Found) × (g' : Registry) × (f k ≡ some v)
          × (remove_locked g k ≡ some (v, g'))
          × Models (put k none f) g')
  remove-Models = elim (remove-Removes g k) [
    | inl (l, r) ↦ inl (sym (m.reads k key) ∙ l, r)
    | inr (v, at, l, r, hm, is) ↦ inr (
      v,
      _,
      sym (m.reads k key) ∙ l,
      r,
      record {
        placed = bury-IsPlaced g m.placed key at hm is;
        reads = λ q kq.
            lookup-bury g m.placed key at hm is q kq
            ∙ ap (λ v. if q == k then none else v) (m.reads q kq);
      },
    )
  ]

  -- a removal that returned `v` and `g'`
  pub remove-eq-some :
      {v : Found} {g' : Registry}
      → remove_locked g k ≡ some (v, g')
      → (f k ≡ some v) × Models (put k none f) g'
  remove-eq-some {v} {g'} h = elim remove-Models [
    | inl (_, r) ↦ cc
    | inr (u, g'', l, r, m') ↦
        let same = some-injective _ _ (sym r ∙ h) in
        (
          l ∙ ap (λ (x : Found × Registry). some x.0) same,
          subst (Models (put k none f)) (ap (λ (x : Found × Registry). x.1) same) m',
        )
  ]

  -- a removal that returned nothing
  pub remove-eq-none : remove_locked g k ≡ none → f k ≡ none
  remove-eq-none h = elim remove-Models [ inl (l, _) ↦ l | inr (u, g'', l, r, m') ↦ cc ]
