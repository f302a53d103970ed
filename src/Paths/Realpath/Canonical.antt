-- ===== src/Paths/Realpath/Canonical.antt =====
-- What `realpath` of src/path_overrides.c does behind its loop.
use libc_override.Base.{
  ℕ, ◌+◌, ◌*◌, ◌≤◌, ◌<◌, ◌≡◌, refl, sym, ap, ◌∙◌, Bool, true, false, not, ◌||◌, List, [], ◌∷◌, ◌++◌,
  length, drop, length-reverse_onto, reverse, reverse-reverse, arith, inl, inr, ◌⊎◌, ◌==◌,
  Bool-cases, none, Errno,
}
use libc_override.Strings.{Malloc}
use libc_override.Paths.{FilePath, path_max, slash, Result, returned, failed, starts, strchrnul}
use libc_override.Paths.Cwd
use libc_override.Paths.Cwd.{getcwd, answered}
use libc_override.Paths.Realpath.{Walk}
use libc_override.Paths.Realpath.Finish.{climb, deliver, joined, relative}
use libc_override.Paths.Realpath.Names.{
  Start, root, roots, ups, dots, render_on, render, AllNames, length-names,
}
use libc_override.Paths.Realpath.Reference.Follows.{Place}
use libc_override.Paths.Realpath.Joined.{
  Delivers, joined-ups, joined-names, render_on-append, length-sep-lt,
}
use libc_override.Paths.Realpath.Climb.{
  climb-root, AllNames-drop, AllNames-append, length-render-drop,
}

-- absolute, without `.`, `..` and names of no bytes
pub record IsCanonical (path : FilePath) : Type 0 where
  pub base : Start
  pub names : List FilePath
  pub absolute : (base ≡ root) ⊎ (base ≡ roots)
  pub all_names : AllNames names
  pub text : path ≡ reverse (render base names)

-- `getcwd` of the kernel: an absolute path of names with its zero within the size, or one that does
-- not start with a slash, where the directory cannot be reached
pub record IsCwd (size : ℕ) (buf : FilePath) : Type 0 where
  pub names : List FilePath
  pub all_names : AllNames names
  pub text : buf ≡ reverse (render root names)
  pub ends : (strchrnul 0 (buf ++ 0 ∷ [])).0 ≡ buf
  pub fits : length buf < size

abbrev pub Reachable : (ℕ → Cwd.Answer) → Type 0
Reachable syscall =
    (size ret : ℕ) (buf : FilePath)
    → syscall size ≡ Cwd.wrote ret buf
    → starts slash buf ≡ true
    → IsCwd size buf

-- A path shows a place that was reached from the current directory: by its names, behind those of the
-- directory that `..` has left.
abbrev pub Shows : (ℕ → Cwd.Answer) → Place → FilePath → Type 0
Shows syscall (root, names) path = path ≡ reverse (render root names)
Shows syscall (roots, names) path = path ≡ reverse (render roots names)
Shows syscall (ups n, names) path =
    (ds : List FilePath) × ((ret : ℕ) × (syscall (path_max + 1)
        ≡ Cwd.wrote ret (reverse (render root ds))))
    × (path ≡ reverse (render root (names ++ drop n ds)))

module _ (malloc : Malloc) (resolved : Bool) (P : FilePath → Type 0) where
  -- an error, or a canonical path that is shorter than PATH_MAX, in the caller's buffer or a block
  abbrev pub Delivered : Result → Type 0
  Delivered r =
      ((e : Errno) × (r ≡ failed e))
      ⊎ ((path : FilePath) × IsCanonical path
          × P path
          × (length path < path_max)
          × (r ≡ deliver malloc resolved path))

  Delivers-Delivered :
      (path : FilePath) (r : Result)
      → IsCanonical path
      → P path
      → Delivers malloc resolved path r
      → Delivered r
  Delivers-Delivered path r is p (inl e) = inl (_, e)
  Delivers-Delivered path r is p (inr (e, fit)) = inr (path, is, p, fit, e)

  enough : (n : ℕ) (names : List FilePath) → 0 + 3 * n ≤ length (render (ups n) names) + 1
  enough n names = omega (arith, length-names (ups n) names, length-sep-lt (render (ups n) names))

  joined-Delivered :
      (n : ℕ) (names ds : List FilePath)
      → AllNames names
      → AllNames ds
      → length (render root ds) ≤ path_max + 1
      → length (render (ups n) names) < path_max
      → P (reverse (render root (names ++ drop n ds)))
      → Delivered (
          joined malloc resolved
            (climb n (length (render (ups n) names)) (render root ds) 0)
            (reverse (render (ups n) names)))
  joined-Delivered n [] ds h k short fit p =
      let cwd = render root (drop n ds) in
      let few : length cwd ≤ path_max + 1 = omega (arith, length-render-drop n ds, short) in
      rw (climb-root n (length (dots n)) 0 ds k (omega arith) (enough n [])) (
        Delivers-Delivered (reverse cwd) _
          (record {
            base = root;
            names = drop n ds;
            absolute = inl refl;
            all_names = AllNames-drop n ds k;
            text = refl;
          })
          p (joined-ups malloc resolved cwd few n fit))
  joined-Delivered n (name ∷ names) ds h k short fit p =
      let cwd = render root (drop n ds) in
      let few : length cwd ≤ path_max + 1 = omega (arith, length-render-drop n ds, short) in
      let out = render (ups n) (name ∷ names) in
      rw (climb-root n (length out) 0 ds k (omega arith) (enough n (name ∷ names))) (
        Delivers-Delivered (reverse (render_on cwd (name ∷ names))) _
          (record {
            base = root;
            names = (name ∷ names) ++ drop n ds;
            absolute = inl refl;
            all_names = AllNames-append (name ∷ names) (drop n ds) h (AllNames-drop n ds k);
            text = ap reverse (render_on-append (slash ∷ []) (name ∷ names) (drop n ds));
          })
          (rw (render_on-append (slash ∷ []) (name ∷ names) (drop n ds)) p)
          (joined-names malloc resolved cwd few n name names h fit))

  relative-Delivered :
      (n : ℕ) (names : List FilePath) (w : Walk) (buf : FilePath)
      → w.out ≡ render (ups n) names
      → w.pending_up ≡ n
      → AllNames names
      → (c : IsCwd (path_max + 1) buf) → length w.out < path_max
      → P (reverse (render root (names ++ drop n c.names)))
      → Delivered (relative malloc resolved (returned none (buf ++ 0 ∷ [])) w)
  unfolding relative
  relative-Delivered n names w buf at up h cwd fit p =
      let turned : reverse buf ≡ render root cwd.names =
        ap reverse cwd.text ∙ reverse-reverse (render root cwd.names) in
      let short : length (render root cwd.names) ≤ path_max + 1 =
        omega (arith, ap length (sym turned), length-reverse_onto buf [], cwd.fits) in
      rw (at, up, cwd.ends, turned)
        (joined-Delivered n names cwd.names h cwd.all_names short (rw at at fit) p)

  -- what `getcwd` of this library does with the answer of the kernel
  pub answered-Delivered :
      (n : ℕ) (names : List FilePath) (w : Walk) (answer : Cwd.Answer)
      → ((ret : ℕ) (buf : FilePath)
          → answer ≡ Cwd.wrote ret buf
          → starts slash buf ≡ true
          → IsCwd (path_max + 1) buf)
      → w.out ≡ render (ups n) names
      → w.pending_up ≡ n
      → AllNames names
      → length w.out < path_max
      → ((ret : ℕ) (buf : FilePath)
          → answer ≡ Cwd.wrote ret buf
          → (c : IsCwd (path_max + 1) buf) → P (reverse (render root (names ++ drop n c.names))))
      → (syscall : ℕ → Cwd.Answer)
      → Delivered (relative malloc resolved (answered malloc syscall false answer) w)
  unfolding answered relative
  answered-Delivered n names w (Cwd.error e) reach at up h fit p syscall = inl (e, refl)
  answered-Delivered n names w (Cwd.wrote ret buf) reach at up h fit p syscall =
      elim (Bool-cases (ret == 0 || not (starts slash buf))) [
        | inl e ↦ rw e (inl (_, refl))
        | inr e ↦
            let cwd = reach ret buf refl (ground arith) in
            rw e (relative-Delivered n names w buf at up h cwd fit (p ret buf refl cwd))
      ]
