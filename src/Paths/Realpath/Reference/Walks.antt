-- ===== src/Paths/Realpath/Reference/Walks.antt =====
-- The whole loop of `realpath` in src/path_overrides.c against the reference.
use libc_override.Base.{
  ℕ, zero, suc, ◌+◌, ◌*◌, ◌≤◌, ◌<◌, ◌≡◌, refl, sym, ap, ◌∙◌, Bool, true, false, List, [], ◌∷◌,
  length, reverse, arith, inl, inr, ◌⊎◌, leb, ◌==◌, Bool-cases, some, einval,
}
use libc_override.Strings.{Malloc}
use libc_override.Paths.{
  FilePath, path_max, slash, Result, starts, is_empty, is_einval, strchrnul, skip_slashes,
}
use libc_override.Paths.Cwd
use libc_override.Paths.Cwd.{getcwd}
use libc_override.Paths.Realpath.{
  Readlink, Walk, Round, next, again, ends, fails, Walked, ended, broke, no_fuel, root_of, rooted,
  looked, round, onward, walk, start, fuel,
}
use libc_override.Paths.Realpath.Finish.{deliver, delivered, checked, realpath}
use libc_override.Paths.Realpath.Names.{Start, root, roots, ups, pending, render, AllNames, waiting}
use libc_override.Paths.Realpath.Names
use libc_override.Paths.Realpath.Leading.{starts-root, starts-roots}
use libc_override.Paths.Realpath.Rounds.{Done, walk-Done, Bounded}
use libc_override.Paths.Realpath.Reference.{
  split, visit, visit_all, root_start, visit_all-skip, visit_all-first, starts-skip, root_of-start,
  pending-root_start,
}
use libc_override.Paths.Realpath.Reference.Short.{
  NoLinks, Kept, Stays, looked-Stays, length-root_skip,
}
use libc_override.Paths.Realpath.Reference.Moves.{Reached}
use libc_override.Paths.Realpath.Reference.Agrees.{Turned, Mild, looked-Turned}

-- the loop ended where the reference does
abbrev pub Reaches : Start × List FilePath → Walked → Type 0
Reaches at (ended w) = Reached at w
Reaches at (broke e) = ⊥
Reaches at no_fuel = Unit

abbrev IsAbsolute : Start → Type 0
IsAbsolute b = (b ≡ root) ⊎ (b ≡ roots)

visit-root : (name : FilePath) (names : List FilePath) → (visit name (root, names)).0 ≡ root
unfolding visit
visit-root name [] = ground arith
visit-root name (other ∷ names) = ground arith

visit-roots : (name : FilePath) (names : List FilePath) → (visit name (roots, names)).0 ≡ roots
unfolding visit
visit-roots name [] = ground arith
visit-roots name (other ∷ names) = ground arith

visit_all-IsAbsolute :
    (all : List FilePath) (at : Start × List FilePath)
    → IsAbsolute (at.0)
    → IsAbsolute (visit_all all at).0
unfolding visit_all
visit_all-IsAbsolute [] at h = h
visit_all-IsAbsolute (name ∷ all) at (inl e) =
    visit_all-IsAbsolute all (visit name at)
      (inl (ap (λ b. (visit name (b, at.1)).0) e ∙ visit-root name (at.1)))
visit_all-IsAbsolute (name ∷ all) at (inr e) =
    visit_all-IsAbsolute all (visit name at)
      (inr (ap (λ b. (visit name (b, at.1)).0) e ∙ visit-roots name (at.1)))

root_start-IsAbsolute : (s : FilePath) → IsAbsolute (root_start s)
root_start-IsAbsolute [] = inl refl
root_start-IsAbsolute (c ∷ s) = ground arith

-- the output of an absolute path is longer than the `..` that wait
Reached-far :
    (at : Start × List FilePath) (w : Walk)
    → Reached at w
    → IsAbsolute (at.0)
    → leb (length w.out) (3 * w.pending_up) ≡ false
Reached-far at w h absolute = elim (Bool-cases (leb (length w.out) (3 * w.pending_up))) [
  | inl near ↦
      let near' : length (render (at.0) (at.1)) ≤ 3 * pending (at.0) =
        ground (arith, ap length h.out, h.ups, near) in
      let (m, _, is) = waiting (at.0) (at.1) h.names near' in
      absurd
        (elim absolute [ inl e ↦ ground (arith, sym e ∙ is) | inr e ↦ ground (arith, sym e ∙ is) ])
  | inr far ↦ far
]

module _ (readlink : Readlink) (none : NoLinks readlink) (n : ℕ) (small : n < path_max) where
  mild : Mild readlink ⊥
  unfolding is_einval
  mild path size = inl (einval, none path size, refl)

  onward-Reaches :
      (go : Walk → Walked) (at : Start × List FilePath) (name rest : FilePath)
      → IsAbsolute (visit name at).0
      → ((to : Start × List FilePath) (w : Walk)
          → Reached to w
          → IsAbsolute (to.0)
          → starts slash w.stack ≡ false
          → Kept n w
          → Reaches (visit_all (split w.stack) to) (go w))
      → (r : Round) → Turned readlink ⊥ at name rest r
      → Stays n r
      → Reaches (visit_all (split rest) (visit name at)) (onward go r)
  unfolding onward visit_all visit is_empty
  onward-Reaches go at name rest absolute ih (next v) (h, same, _) kept =
      let to = visit name at in
      let left =
        ih to (record v { stack = skip_slashes v.stack })
          (record { out = h.out; ups = h.ups; names = h.names }) absolute (starts-skip v.stack)
          kept in
      rw (sym same) (rw (visit_all-skip v.stack to) at left)
  onward-Reaches go at name rest absolute ih (again v) turned kept = absurd kept
  onward-Reaches go at name rest absolute ih (ends v) (h, empty, _) kept = rw empty h
  onward-Reaches go at name rest absolute ih (fails e) turned kept = absurd kept

  walk-Reaches :
      (f : ℕ) (at : Start × List FilePath) (w : Walk)
      → Reached at w
      → IsAbsolute (at.0)
      → starts slash w.stack ≡ false
      → Kept n w
      → Reaches (visit_all (split w.stack) at) (walk f readlink w)
  unfolding walk round visit_all
  walk-Reaches zero at w h absolute relative kept = tt
  walk-Reaches (suc f) at w h absolute relative kept =
      let (name, rest) = strchrnul slash w.stack in
      rw (visit_all-first w.stack at) (
        onward-Reaches (walk f readlink) at name rest (visit_all-IsAbsolute (name ∷ []) at absolute)
          (walk-Reaches f) (looked readlink w.stack w)
          (looked-Turned readlink ⊥ mild (at.0) (at.1) w h w.stack relative)
          (looked-Stays readlink none n small w (Reached-far at w h absolute) w.stack refl relative
            kept))

  walk-absolute :
      (f : ℕ) (rest : FilePath)
      → length rest + 1 ≤ n
      → Reaches
          (visit_all (split rest) (root_start rest, []))
          (walk (suc f) readlink (start (slash ∷ rest)))
  unfolding walk round looked onward rooted start
  walk-absolute f rest fit =
      let w : Walk = record {
        stack = skip_slashes rest;
        out = root_of rest;
        loop_count = 0;
        pending_up = 0;
        check_dir = false;
      } in
      rw (visit_all-skip rest (root_start rest, [])) at (
        walk-Reaches f (root_start rest, []) w
          (record { out = root_of-start rest; ups = pending-root_start rest; names = Names.none })
          (root_start-IsAbsolute rest) (starts-skip rest)
          (inl (omega (arith, fit, length-root_skip rest))))

starts-absolute :
    (b : Start) (names : List FilePath)
    → IsAbsolute b
    → starts slash (reverse (render b names)) ≡ true
starts-absolute b names (inl e) =
    ap (λ x. starts slash (reverse (render x names))) e ∙ starts-root names
starts-absolute b names (inr e) =
    ap (λ x. starts slash (reverse (render x names))) e ∙ starts-roots names

module _ (malloc : Malloc) (resolved : Bool) (cwd : Result) where
  delivered-reference :
      (at : Start × List FilePath) (r : Walked)
      → IsAbsolute (at.0)
      → Reaches at r
      → Done r
      → delivered malloc resolved cwd r ≡ deliver malloc resolved (reverse (render (at.0) (at.1)))
  unfolding delivered
  delivered-reference at (ended w) absolute h fits =
      let first : starts slash (reverse w.out) ≡ true =
        ap (λ x. starts slash (reverse x)) h.out ∙ starts-absolute (at.0) (at.1) absolute in
      rw first (ap (λ x. deliver malloc resolved (reverse x)) h.out)
  delivered-reference at (broke e) absolute h fits = absurd h
  delivered-reference at no_fuel absolute h fits = absurd fits

  checked-reference :
      (at : Start × List FilePath) (filename : FilePath) (r : Walked)
      → 0 < length filename
      → length filename < path_max
      → IsAbsolute (at.0)
      → Reaches at r
      → Done r
      → checked malloc resolved cwd filename r
        ≡ deliver malloc resolved (reverse (render (at.0) (at.1)))
  unfolding checked
  checked-reference at filename r nonempty short absolute h done =
      let filled : length filename == 0 ≡ false = ground arith in
      let fits : leb path_max (length filename) ≡ false = ground arith in
      rw (filled, fits) (delivered-reference at r absolute h done)

-- Where no name is a link, `realpath` of an absolute path that is shorter than PATH_MAX agrees with the
-- reference: the names between its slashes are taken one after the other, `..` takes the last name
-- away, and `.` and names of no bytes are passed over. That path goes into the
-- caller's buffer, or to `strdup` where there is none, and the length of it is never an error.
pub realpath_reference :
    (malloc : Malloc) (readlink : Readlink) (syscall : ℕ → Cwd.Answer) (rest : FilePath)
    (resolved : Bool)
    → NoLinks readlink
    → length rest + 1 < path_max
    → let at = visit_all (split rest) (root_start rest, []) in
      realpath malloc readlink syscall (some (slash ∷ rest)) resolved
      ≡ deliver malloc resolved (reverse (render (at.0) (at.1)))
unfolding realpath start
realpath_reference malloc readlink syscall rest resolved none short =
    let at = visit_all (split rest) (root_start rest, []) in
    let bounded : Bounded readlink =
      λ path text size e. absurd (ground (arith, none path size, e)) in
    checked-reference malloc resolved (getcwd malloc syscall (some (path_max + 1))) at
      (slash ∷ rest) (walk fuel readlink (start (slash ∷ rest))) (omega arith)
      (omega (arith, short))
      (visit_all-IsAbsolute (split rest) (root_start rest, []) (root_start-IsAbsolute rest))
      (walk-absolute readlink none (length rest + 1) short 399999 rest (omega arith))
      (walk-Done readlink bounded fuel (start (slash ∷ rest))
        (record { stack = omega (arith, short); out = omega arith; links = omega arith })
        (omega (arith, short)))
