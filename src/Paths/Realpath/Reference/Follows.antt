-- ===== src/Paths/Realpath/Reference/Follows.antt =====
-- How a path is followed, links included, as a relation: what the loop of `realpath` in
-- src/path_overrides.c does, without its arrays, its limits and its flag.
use libc_override.Base.{
  ℕ, zero, suc, ◌<◌, ◌≡◌, refl, Bool, true, false, List, [], ◌∷◌, length, ◌++◌, if◌then◌else◌,
  arith, inl, inr, ◌⊎◌, ◌==◌, Bool-cases, Errno,
}
use libc_override.Paths.{FilePath, path_max, slash, starts, strchrnul, skip_slashes}
use libc_override.Paths.Realpath.{
  Readlink, Walk, Round, next, again, ends, fails, Walked, ended, broke, no_fuel, ends_slash,
  pushed, root_of, rooted, looked, round, onward, walk, start, fuel,
}
use libc_override.Paths.Realpath.Names
use libc_override.Paths.Realpath.Names.{Start, ups, pending, render}
use libc_override.Paths.Realpath.Rounds.{Bounded, Fits, Done, walk-Done}
use libc_override.Paths.Realpath.Reference.{
  visit, root_start, root_of-start, starts-skip, pending-root_start,
}
use libc_override.Paths.Realpath.Reference.Moves.{Reached}
use libc_override.Paths.Realpath.Reference.Agrees.{Passed, IsLink, Turned, Mild, looked-Turned}

abbrev pub Place : Type 0
Place = Start × List FilePath

-- the text of a link, and what is left of a path: without its slashes where the text ends in one
abbrev followed_by : (text rest : FilePath) → FilePath
followed_by text rest = text ++ (if ends_slash text then skip_slashes rest else rest)

module _ (readlink : Readlink) where
  -- `Follows fresh at s to`: the bytes `s` lead from one place to another. They are fresh where a
  -- path or the text of a link starts: there a slash leads to the root, and elsewhere it only ends a name.
  -- A name up to a slash is taken, or it is a link, and its text is followed in its place.
  pub data Follows : (fresh : Bool) → (at : Place) → FilePath → (to : Place) → Type 0 where
    arrives : {fresh : Bool} {at : Place} → Follows fresh at [] at
    root :
        {at to : Place} {c : ℕ} {s : FilePath}
        → (c == slash) ≡ true
        → Follows false (root_start s, []) s to
        → Follows true at (c ∷ s) to
    skip :
        {at to : Place} {c : ℕ} {s : FilePath}
        → (c == slash) ≡ true
        → Follows false at s to
        → Follows false at (c ∷ s) to
    take :
        {fresh : Bool} {at to : Place} {s : FilePath}
        → starts slash s ≡ false
        → Passed readlink at (strchrnul slash s).0
        → Follows false (visit (strchrnul slash s).0 at) (strchrnul slash s).1 to
        → Follows fresh at s to
    link :
        {fresh : Bool} {at to : Place} {s text : FilePath}
        → starts slash s ≡ false
        → IsLink readlink at (strchrnul slash s).0 text
        → Follows true at (followed_by text (strchrnul slash s).1) to
        → Follows fresh at s to

  skip_slashes-Follows :
      (at to : Place) (s : FilePath) → Follows false at (skip_slashes s) to → Follows false at s to
  unfolding skip_slashes
  skip_slashes-Follows at to [] h = h
  skip_slashes-Follows at to (c ∷ s) h = elim (Bool-cases (c == slash)) [
    | inl e ↦ skip e (skip_slashes-Follows at to s (rw e at h))
    | inr e ↦ rw e at h
  ]

  -- the loop ended at a place that the bytes lead to
  abbrev pub Arrives : Bool → Place → FilePath → Walked → Type 0
  Arrives fresh at s (ended w) = (to : Place) × Follows fresh at s to × Reached to w
  Arrives fresh at s _ = Unit

  map-Arrives :
      (fresh fresh' : Bool) (at at' : Place) (s s' : FilePath)
      → ((to : Place) → Follows fresh at s to → Follows fresh' at' s' to)
      → (r : Walked) → Arrives fresh at s r
      → Arrives fresh' at' s' r
  map-Arrives fresh fresh' at at' s s' f (ended w) (to, h, reached) = (to, f to h, reached)
  map-Arrives fresh fresh' at at' s s' f (broke e) h = tt
  map-Arrives fresh fresh' at at' s s' f no_fuel h = tt

  -- a fresh path, or one that does not start with a slash
  abbrev Ready : Bool → FilePath → Type 0
  Ready fresh s = (fresh ≡ true) ⊎ (starts slash s ≡ false)

  module _ (go : Walk → Walked)
      (ih : (fresh : Bool) (at : Place) (w : Walk)
        → Reached at w
        → Ready fresh w.stack
        → Arrives fresh at w.stack (go w)) where
    mild : Mild readlink Unit
    mild path size = inr tt

    -- a fresh path that starts with a slash
    rooted-Arrives :
        (fresh : Bool) (at : Place) (c : ℕ) (s : FilePath) (w : Walk)
        → (c == slash) ≡ true
        → Ready fresh (c ∷ s)
        → Arrives fresh at (c ∷ s) (onward go (looked readlink (c ∷ s) w))
    unfolding looked rooted onward starts
    rooted-Arrives true at c s w e ready =
        let place : Place = (root_start s, []) in
        let v : Walk = record w {
          stack = skip_slashes s;
          out = root_of s;
          pending_up = 0;
          check_dir = false;
        } in
        rw e (
          map-Arrives false true place at (skip_slashes s) (c ∷ s)
            (λ x h. root e (skip_slashes-Follows place x s h)) (go v)
            (ih false place v
              (record { out = root_of-start s; ups = pending-root_start s; names = Names.none })
              (inr (starts-skip s))))
    rooted-Arrives false at c s w e (inl no_way) = absurd (ground (arith, no_way))
    rooted-Arrives false at c s w e (inr no_way) = absurd (ground (arith, no_way, e))

    onward-Arrives :
        (fresh : Bool) (at : Place) (s : FilePath)
        → starts slash s ≡ false
        → (r : Round) → Turned readlink Unit at (strchrnul slash s).0 (strchrnul slash s).1 r
        → Arrives fresh at s (onward go r)
    unfolding onward pushed
    onward-Arrives fresh at s first (next v) (reached, same, passed) =
        let to = visit (strchrnul slash s).0 at in
        let left =
          ih false to (record v { stack = skip_slashes v.stack })
            (record { out = reached.out; ups = reached.ups; names = reached.names })
            (inr (starts-skip v.stack)) in
        map-Arrives false fresh to at (skip_slashes v.stack) s
          (λ x h.
            take first passed (skip_slashes-Follows to x (strchrnul slash s).1 (rw same at h)))
          (go (record v { stack = skip_slashes v.stack })) left
    onward-Arrives fresh at s first (again v) (_, reached, (text, is, same)) =
        map-Arrives true fresh at at v.stack s (λ x h. link first is (rw same at h)) (go v)
          (ih true at v reached (inl refl))
    onward-Arrives fresh at s first (ends v) (reached, none, passed) =
        (visit (strchrnul slash s).0 at, take first passed (rw none arrives), reached)
    onward-Arrives fresh at s first (fails e) h = tt

    looked-Arrives :
        (fresh : Bool) (at : Place) (stack : FilePath) (w : Walk)
        → Reached at w
        → Ready fresh stack
        → Arrives fresh at stack (onward go (looked readlink stack w))
    unfolding starts
    looked-Arrives fresh at [] w h ready =
        onward-Arrives fresh at [] refl (looked readlink [] w)
          (looked-Turned readlink Unit mild (at.0) (at.1) w h [] refl)
    looked-Arrives fresh at (c ∷ s) w h ready = elim (Bool-cases (c == slash)) [
      | inl e ↦ rooted-Arrives fresh at c s w e ready
      | inr e ↦
          onward-Arrives fresh at (c ∷ s) e (looked readlink (c ∷ s) w)
            (looked-Turned readlink Unit mild (at.0) (at.1) w h (c ∷ s) e)
    ]

  pub walk-Arrives :
      (f : ℕ) (fresh : Bool) (at : Place) (w : Walk)
      → Reached at w
      → Ready fresh w.stack
      → Arrives fresh at w.stack (walk f readlink w)
  unfolding walk round
  walk-Arrives zero fresh at w h ready = tt
  walk-Arrives (suc f) fresh at w h ready =
      looked-Arrives (walk f readlink) (walk-Arrives f) fresh at w.stack w h ready

-- an error, or an output of the names that a path leads to
abbrev pub Leads : Readlink → FilePath → Walked → Type 0
Leads readlink filename r =
    ((e : Errno) × (r ≡ broke e))
    ⊎ ((w : Walk) × (r ≡ ended w)
        × Fits w
        × ((to : Place) × Follows readlink true (ups 0, []) filename to × Reached to w))

Leads-of :
    (readlink : Readlink) (filename : FilePath) (r : Walked)
    → Arrives readlink true (ups 0, []) filename r
    → Done r
    → Leads readlink filename r
Leads-of readlink filename (ended w) arrived fits = inr (w, refl, fits, arrived)
Leads-of readlink filename (broke e) arrived fits = inl (e, refl)
Leads-of readlink filename no_fuel arrived fits = absurd fits

-- The loop of `realpath` ends with an error, or with an output of just the names, behind their start,
-- that the path leads to when its links are followed: each name is taken that has no meaning of its own
-- and that `readlink` calls no link, `..` takes the last name away or waits for the current directory, and
-- the text of a link is followed in the place of its name, from the root if it starts with a slash. The
-- bytes fit into the arrays, and fewer than SYMLOOP_MAX links were followed.
pub walk-Leads :
    (readlink : Readlink) (filename : FilePath)
    → Bounded readlink
    → length filename < path_max
    → Leads readlink filename (walk fuel readlink (start filename))
unfolding start
walk-Leads readlink filename bounded short =
    Leads-of readlink filename (walk fuel readlink (start filename))
      (walk-Arrives readlink fuel true (ups 0, []) (start filename)
        (record { out = refl; ups = refl; names = Names.none }) (inl refl))
      (walk-Done readlink bounded fuel (start filename)
        (record { stack = omega (arith, short); out = omega arith; links = omega arith })
        (omega (arith, short)))
