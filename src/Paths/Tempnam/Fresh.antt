-- ===== src/Paths/Tempnam/Fresh.antt =====
-- The names that `tempnam` of src/path_overrides.c returns.
use Prim.Native.Nat.{bit_xor}
use libc_override.Base.{
  ℕ, zero, suc, ◌+◌, ◌%◌, ◌≤◌, ◌<◌, ◌≡◌, refl, ap, true, false, [], ◌∷◌, ◌++◌, length,
  length-append, Option, arith, inl, inr, ◌⊎◌, leb, ◌==◌, mul_word, Bool-cases, Errno, enoent,
  enametoolong,
}
use libc_override.Strings.{Malloc}
use libc_override.Paths.{FilePath, path_max, slash, Result, failed, duplicate}
use libc_override.Paths.Realpath.{Readlink, Link, error, target}
use libc_override.Paths.Tempnam.{
  Timespec, letter, letters, randname, dir_or, pfx_or, template, is_enoent, errno_of, is_free,
  tries, tempnam,
}

-- a letter or a digit
abbrev pub IsAlnum : ℕ → Type 0
IsAlnum c = (48 ≤ c) × (c ≤ 57) ⊎ (65 ≤ c) × (c ≤ 90) ⊎ (97 ≤ c) × (c ≤ 122)

pub data AllAlnum : FilePath → Type 0 where
  empty : AllAlnum []
  more : {c : ℕ} {s : FilePath} → IsAlnum c → AllAlnum s → AllAlnum (c ∷ s)

letter-IsAlnum : (value : ℕ) → IsAlnum (letter (value % 62))
unfolding letter
letter-IsAlnum value = ground arith

letters-AllAlnum :
    (count i value : ℕ)
    → AllAlnum (letters count i value) × (length (letters count i value) ≡ count)
unfolding letters
letters-AllAlnum zero i value = (empty, refl)
letters-AllAlnum (suc count) i value =
    let (all, size) = letters-AllAlnum count (i + 1) _ in
    (more (letter-IsAlnum value) all, ap suc size)

-- a path that `readlink` does not find: the front and six letters or digits
pub record IsFresh (readlink : Readlink) (front path : FilePath) : Type 0 where
  pub name : FilePath
  pub text : path ≡ front ++ name
  pub all_alnum : AllAlnum name
  pub six : length name ≡ 6
  pub free : readlink path 1 ≡ error enoent

is_enoent_iff : (e : Errno) → is_enoent e ≡ true → e ≡ enoent
unfolding is_enoent
is_enoent_iff enoent h = refl
is_enoent_iff _ h = absurd (ground (arith, h))

is_free_iff : (answer : Link) → is_free answer ≡ true → answer ≡ error enoent
unfolding is_free
is_free_iff (error e) h = ap error (is_enoent_iff e h)
is_free_iff (target text) h = absurd (ground (arith, h))

length-template : (dir pfx : FilePath) → length (template dir pfx) ≡ length dir + 1 + length pfx + 1
unfolding template
length-template dir pfx =
    let rest = slash ∷ (pfx ++ 95 ∷ []) in
    let front : length (template dir pfx) ≡ length dir + length rest = length-append dir rest in
    omega (arith, front, length-append pfx (95 ∷ []))

module _ (malloc : Malloc) (readlink : Readlink) (clock : ℕ → Timespec) (tid : ℕ) where
  -- the name of a try
  abbrev pub tried : FilePath → ℕ → FilePath
  tried front i = front ++ randname (clock i) tid

  -- NULL where each of the names from `attempt` up to `end` was taken, or a copy of a path that was free
  abbrev pub Made : (attempt end : ℕ) → FilePath → Result → Type 0
  Made attempt end front r =
      ((i : ℕ) → attempt ≤ i → i < end → is_free (readlink (tried front i) 1) ≡ false)
        × ((e : Errno) × (r ≡ failed e))
      ⊎ ((path : FilePath) × IsFresh readlink front path × (r ≡ duplicate malloc path))

  randname-all : (ts : Timespec) → AllAlnum (randname ts tid) × (length (randname ts tid) ≡ 6)
  unfolding randname
  randname-all ts =
      letters-AllAlnum 6 0 (bit_xor (bit_xor ts.tv_sec ts.tv_nsec) (mul_word tid 65537))

  again-Made :
      (attempt end : ℕ) (front : FilePath) (r : Result)
      → is_free (readlink (tried front attempt) 1) ≡ false
      → Made (attempt + 1) end front r
      → Made attempt end front r
  again-Made attempt end front r taken (inl (all, gone)) = inl (
    λ i low high. elim (Bool-cases (i == attempt)) [
      | inl e ↦ let same : i ≡ attempt = ground (arith, e) in rw same taken
      | inr e ↦ all i (ground (arith, e)) high
    ],
    gone,
  )
  again-Made attempt end front r taken (inr made) = inr made

  tries-Made :
      (left attempt : ℕ) (front : FilePath) (errno : Errno)
      → Made attempt
          (attempt + left)
          front
          (tries malloc readlink clock tid left attempt front errno)
  unfolding tries
  tries-Made zero attempt front errno = inl (λ i low high. absurd (omega arith), (errno, refl))
  tries-Made (suc left) attempt front errno =
      elim (Bool-cases (is_free (readlink (tried front attempt) 1))) [
        | inl e ↦
            let (all, size) = randname-all (clock attempt) in
            rw e (
              inr (
                tried front attempt,
                record {
                  name = randname (clock attempt) tid;
                  text = refl;
                  all_alnum = all;
                  six = size;
                  free = is_free_iff (readlink (tried front attempt) 1) e;
                },
                refl,
              ))
        | inr e ↦
            let end : attempt + 1 + left ≡ attempt + suc left = omega arith in
            rw e (
              again-Made attempt _ front _ e (
                rw end at (
                  tries-Made left (attempt + 1) front
                    (errno_of (readlink (tried front attempt) 1) errno))))
      ]

-- `tempnam` fails with ENAMETOOLONG where the directory, the prefix and eight bytes more do not fit
-- into PATH_MAX. Otherwise it returns a copy of a path that `readlink` does not find: the directory, a
-- slash, the prefix, `_` and six letters or digits. It gives up only when all the 100 names were taken.
pub tempnam-Made :
    (malloc : Malloc) (readlink : Readlink) (clock : ℕ → Timespec) (tid : ℕ)
    (dir pfx : Option FilePath) (errno : Errno)
    → let front = template (dir_or dir) (pfx_or pfx) in
      let r = tempnam malloc readlink clock tid dir pfx errno in
      (path_max ≤ length front + 6) × (r ≡ failed enametoolong)
      ⊎ (length front + 6 < path_max) × Made malloc readlink clock tid 0 100 front r
unfolding tempnam
tempnam-Made malloc readlink clock tid dir pfx errno =
    let total_len = length (dir_or dir) + 1 + length (pfx_or pfx) + 1 + 6 in
    let size = length-template (dir_or dir) (pfx_or pfx) in
    elim (Bool-cases (leb path_max total_len)) [
      | inl e ↦ rw e (inl (ground (arith, size), refl))
      | inr e ↦ rw e (
          inr (
            ground (arith, size),
            tries-Made malloc readlink clock tid 100 0 (template (dir_or dir) (pfx_or pfx)) errno,
          ))
    ]
