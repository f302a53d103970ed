-- ===== src/Paths/Realpath/Reference.antt =====
-- A reference for `realpath` of src/path_overrides.c where no link is met: the names between the
-- slashes, one after the other.
pub mod Moves
pub mod Agrees
pub mod Follows
pub mod Short
pub mod Walks
use libc_override.Base.{
  ℕ, zero, suc, ◌+◌, ◌≡◌, refl, sym, ap, ◌∙◌, Bool, true, false, ◌||◌, List, [], ◌∷◌, arith, inl,
  inr, ◌==◌, if◌then◌else◌, Bool-cases,
}
use libc_override.Paths.{FilePath, slash, is_empty, starts, strchrnul, skip_slashes}
use libc_override.Paths.Realpath.{is_dot, is_dot_dot, root_of}
use libc_override.Paths.Realpath.Names.{
  Start, root, roots, ups, pending, IsName, AllNames, render, start_out,
}
use libc_override.Paths.Realpath.Names

-- what stands between the slashes of a path
abbrev first_with : ℕ → List FilePath → List FilePath
first_with c [] = (c ∷ []) ∷ []
first_with c (name ∷ names) = (c ∷ name) ∷ names

abbrev pub split : FilePath → List FilePath
split [] = [] ∷ []
split (c ∷ s) = let rest = split s in if c == slash then [] ∷ rest else first_with c rest

-- `..` takes a name away, waits for the current directory, or stays at the root
abbrev pub up : Start → List FilePath → Start × List FilePath
up b (name ∷ names) = (b, names)
up (ups n) [] = (ups (suc n), [])
up b [] = (b, [])

unfoldable pub visit : FilePath → Start × List FilePath → Start × List FilePath
unfolding is_empty is_dot is_dot_dot
visit name (b, names) =
    if is_empty name || is_dot name
    then (b, names)
    else if is_dot_dot name
    then up b names
    else (b, name ∷ names)

unfoldable pub visit_all : List FilePath → Start × List FilePath → Start × List FilePath
unfolding visit
visit_all [] at = at
visit_all (name ∷ names) at = visit_all names (visit name at)

-- an absolute path starts at the root, or at the two slashes that are kept, by what follows its first
abbrev pub root_start : FilePath → Start
root_start [] = root
root_start (c ∷ s) = if c == slash then (if starts slash s then root else roots) else root

-- names of no bytes are passed over
visit_all-empty :
    (names : List FilePath) (at : Start × List FilePath)
    → visit_all ([] ∷ names) at ≡ visit_all names at
unfolding visit_all
visit_all-empty names at = refl

pub visit_all-skip :
    (s : FilePath) (at : Start × List FilePath)
    → visit_all (split (skip_slashes s)) at ≡ visit_all (split s) at
unfolding skip_slashes visit_all
visit_all-skip [] at = refl
visit_all-skip (c ∷ s) at = elim (Bool-cases (c == slash)) [
  | inl e ↦ rw e (visit_all-skip s at)
  | inr e ↦
      let same : skip_slashes (c ∷ s) ≡ c ∷ s = rw e refl in ap (λ t. visit_all (split t) at) same
]

-- the first name of a path, and those behind it
abbrev Splits : FilePath → Type 0
Splits s =
    (names : List FilePath) × (split s ≡ (strchrnul slash s).0 ∷ names)
    × ((at : Start × List FilePath)
        → visit_all names at ≡ visit_all (split (strchrnul slash s).1) at)

split-Splits : (s : FilePath) → Splits s
unfolding strchrnul visit_all
split-Splits [] = ([], refl, λ at. refl)
split-Splits (c ∷ s) = elim (Bool-cases (c == slash)) [
  | inl e ↦ rw e (split s, refl, λ at. rw e refl)
  | inr e ↦ let (names, is, same) = split-Splits s in rw (e, is) (names, refl, same)
]

pub visit_all-first :
    (s : FilePath) (at : Start × List FilePath)
    → visit_all (split s) at
      ≡ visit_all (split (strchrnul slash s).1) (visit (strchrnul slash s).0 at)
unfolding visit_all
visit_all-first s at =
    let (names, is, same) = split-Splits s in rw is (same (visit (strchrnul slash s).0 at))

pub starts-skip : (s : FilePath) → starts slash (skip_slashes s) ≡ false
unfolding skip_slashes starts
starts-skip [] = refl
starts-skip (c ∷ s) = elim (Bool-cases (c == slash)) [
  | inl e ↦ rw e (starts-skip s)
  | inr e ↦ rw e e
]

pub root_of-start : (s : FilePath) → root_of s ≡ start_out (root_start s)
unfolding root_of
root_of-start [] = refl
root_of-start (c ∷ s) = elim (Bool-cases (c == slash)) [
  | inl e ↦ elim (Bool-cases (starts slash s)) [
    | inl e' ↦ rw (e, e') refl
    | inr e' ↦ rw (e, e') refl
  ]
  | inr e ↦ rw e refl
]

pub pending-root_start : (s : FilePath) → 0 ≡ pending (root_start s)
pending-root_start [] = refl
pending-root_start (c ∷ s) = ground arith
