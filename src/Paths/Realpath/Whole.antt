-- ===== src/Paths/Realpath/Whole.antt =====
-- What `realpath` of src/path_overrides.c returns.
use libc_override.Base.{
  ℕ, ◌+◌, ◌<◌, ◌≡◌, refl, ap, ◌∙◌, Bool, true, false, List, [], length, length-reverse_onto,
  reverse, arith, inl, inr, ◌⊎◌, leb, ◌==◌, Bool-cases, some, Errno,
}
use libc_override.Strings.{Malloc}
use libc_override.Paths.{FilePath, path_max, slash, Result, failed, starts}
use libc_override.Paths.Cwd
use libc_override.Paths.Cwd.{getcwd, answered}
use libc_override.Paths.Realpath.{Readlink, Walk, Walked, ended, broke, no_fuel, start, fuel, walk}
use libc_override.Paths.Realpath.Finish.{deliver, delivered, checked, realpath}
use libc_override.Paths.Realpath.Names
use libc_override.Paths.Realpath.Names.{
  Start, root, roots, ups, pending, dots, render_on, render, AllNames, length-names,
}
use libc_override.Paths.Realpath.Reference.Follows.{Place, Follows, Arrives, walk-Arrives}
use libc_override.Paths.Realpath.Rounds.{Bounded, Done, walk-Done}
use libc_override.Paths.Realpath.Leading.{starts-root, starts-roots, starts-ups}
use libc_override.Paths.Realpath.Canonical.{
  IsCanonical, Reachable, Shows, Delivered, answered-Delivered,
}

module _ (malloc : Malloc) (resolved : Bool) (syscall : ℕ → Cwd.Answer) (readlink : Readlink)
    (filename : FilePath) where
  -- An error, or a canonical path that is shorter than PATH_MAX, in the caller's buffer or a block. It
  -- shows the place that the name of the file leads to.
  abbrev pub Answers : Result → Type 0
  Answers r =
      ((e : Errno) × (r ≡ failed e))
      ⊎ ((to : Place) × (path : FilePath) × Follows readlink true (ups 0, []) filename to
          × Shows syscall to path
          × IsCanonical path
          × (length path < path_max)
          × (r ≡ deliver malloc resolved path))

module _ (malloc : Malloc) (resolved : Bool) (syscall : ℕ → Cwd.Answer)
    (reach : Reachable syscall) where
  shorter :
      (b : Start) (names : List FilePath) (w : Walk)
      → w.out ≡ render b names
      → length w.out < path_max
      → length (reverse (render b names)) < path_max
  shorter b names w at fit = omega (arith, length-reverse_onto (render b names) [], ap length at)

  ended-Delivered :
      (b : Start) (names : List FilePath) (w : Walk)
      → w.out ≡ render b names
      → w.pending_up ≡ pending b
      → AllNames names
      → length w.out < path_max
      → Delivered malloc resolved
          (Shows syscall (b, names))
          (delivered malloc resolved (getcwd malloc syscall (some (path_max + 1))) (ended w))
  unfolding delivered getcwd answered
  ended-Delivered root names w at up h fit =
      rw (at, starts-root names)
        (inr (
          reverse (render root names),
          record { base = root; names = names; absolute = inl refl; all_names = h; text = refl },
          refl,
          shorter root names w at fit,
          refl,
        ))
  ended-Delivered roots names w at up h fit =
      rw (at, starts-roots names)
        (inr (
          reverse (render roots names),
          record { base = roots; names = names; absolute = inr refl; all_names = h; text = refl },
          refl,
          shorter roots names w at fit,
          refl,
        ))
  ended-Delivered (ups n) names w at up h fit =
      let relative_path : starts slash (reverse w.out) ≡ false =
        ap (λ x. starts slash (reverse x)) at ∙ starts-ups n names h in
      rw relative_path (
        answered-Delivered malloc resolved (Shows syscall (ups n, names)) n names w
          (syscall (path_max + 1)) (reach (path_max + 1)) at up h fit
          (λ ret buf is c. (c.names, (ret, is ∙ ap (Cwd.wrote ret) c.text), refl)) syscall)

  module _ (readlink : Readlink) (filename : FilePath) where
    Delivered-Answers :
        (to : Place) (r : Result)
        → Follows readlink true (ups 0, []) filename to
        → Delivered malloc resolved (Shows syscall to) r
        → Answers malloc resolved syscall readlink filename r
    Delivered-Answers to r h (inl e) = inl e
    Delivered-Answers to r h (inr (path, is, shows, fit, e)) = inr (to, path, h, shows, is, fit, e)

    delivered-Answers :
        (r : Walked)
        → Arrives readlink true (ups 0, []) filename r
        → Done r
        → Answers malloc resolved syscall readlink filename
            (delivered malloc resolved (getcwd malloc syscall (some (path_max + 1))) r)
    unfolding delivered
    delivered-Answers (ended w) (to, follows, h) fits =
        Delivered-Answers to _ follows
          (ended-Delivered (to.0) (to.1) w h.out h.ups h.names fits.out)
    delivered-Answers (broke e) _ _ = inl (e, refl)
    delivered-Answers no_fuel _ h = absurd h

    checked-Answers :
        (r : Walked)
        → Arrives readlink true (ups 0, []) filename r
        → (length filename < path_max → Done r)
        → Answers malloc resolved syscall readlink filename
            (checked malloc resolved (getcwd malloc syscall (some (path_max + 1))) filename r)
    unfolding checked
    checked-Answers r stands done = elim (Bool-cases (length filename == 0)) [
      | inl e ↦ rw e (inl (_, refl))
      | inr e ↦ rw e (elim (Bool-cases (leb path_max (length filename))) [
        | inl e' ↦ rw e' (inl (_, refl))
        | inr e' ↦ rw e' (delivered-Answers r stands (done (ground arith)))
      ])
    ]

-- `realpath` ends, whatever the links are, within the rounds that the model has. It returns an error,
-- or an absolute path without `.`, `..` and empty names that is shorter than PATH_MAX, in the caller's
-- buffer or in a block from `strdup`. That path shows the place that the name of the file leads to when
-- its links are followed: with its own names where it is absolute, and behind the current directory, less
-- a name for each `..` that is left, where it is not. Of `readlink` it relies on an answer within the
-- size, of `getcwd` on a path of names.
pub realpath-Answers :
    (malloc : Malloc) (readlink : Readlink) (syscall : ℕ → Cwd.Answer) (filename : FilePath)
    (resolved : Bool)
    → Bounded readlink
    → Reachable syscall
    → Answers malloc resolved syscall readlink filename
        (realpath malloc readlink syscall (some filename) resolved)
unfolding realpath start
realpath-Answers malloc readlink syscall filename resolved bounded reach =
    checked-Answers malloc resolved syscall reach readlink filename
      (walk fuel readlink (start filename))
      (walk-Arrives readlink fuel true (ups 0, []) (start filename)
        (record { out = refl; ups = refl; names = Names.none }) (inl refl))
      (λ short.
        walk-Done readlink bounded fuel (start filename)
          (record { stack = omega (arith, short); out = omega arith; links = omega arith })
          (omega (arith, short)))
