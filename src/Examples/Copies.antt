-- ===== src/Examples/Copies.antt =====
-- The theorems on directories, copies, printed text and sets of processors.
use libc_override.Base.{
  ℕ, ◌+◌, ◌*◌, ◌%◌, ◌<◌, ◌≤◌, ◌≡◌, refl, ◌⊎◌, Bool, List, [], ◌∷◌, length, none, some, ltb,
  if◌then◌else◌, arith, enametoolong, enoent, einval, ◌==◌,
}
use libc_override.Base.Live.{Live}
use libc_override.Strings.{Malloc, filled, strdup, strndup, wcsdup}
use libc_override.Strings.Copies.{empty, more, copies_lem}
use libc_override.Stdio.{Written, cut, vasprintf, asprintf, whole, vasprintf_lem}
use libc_override.Sched.{cpu_alloc_size, cpu_alloc_size_lem}
use libc_override.Dirent.{Dirent, Allocator, entries, scandir}
use libc_override.Dirent.Scanned.{Scanned, chosen, scandir-Scanned}
use libc_override.Paths.{path_max, failed}
use libc_override.Paths.Realpath.{Readlink, target}
use libc_override.Paths.Tempnam.{Timespec, template, dir_or, pfx_or, tempnam}
use libc_override.Paths.Tempnam.Fresh.{Made, tempnam-Made}

abbrev malloc : Malloc
malloc n = some 4096

copies_lem_example :
    (strdup malloc (97 ∷ 98 ∷ 0 ∷ 7 ∷ []) ≡ filled (malloc 3) (97 ∷ 98 ∷ 0 ∷ []))
    × (strndup malloc (97 ∷ 98 ∷ 0 ∷ 7 ∷ []) 1 ≡ filled (malloc 2) (97 ∷ 0 ∷ []))
    × (wcsdup malloc (97 ∷ 98 ∷ 0 ∷ 7 ∷ []) ≡ filled (malloc 12) (97 ∷ 98 ∷ 0 ∷ []))
copies_lem_example =
    copies_lem malloc (97 ∷ 98 ∷ []) (7 ∷ []) 1 (more (omega arith) (more (omega arith) empty))
      (omega arith)

abbrev text : List ℕ
text = 52 ∷ 50 ∷ []

abbrev vsnprintf : ℕ → Written
vsnprintf size = record { ret = some 2; bytes = cut size text }

vasprintf_lem_example :
    (vasprintf malloc vsnprintf ≡ whole text (malloc 3))
    × (asprintf malloc vsnprintf ≡ vasprintf malloc vsnprintf)
vasprintf_lem_example = vasprintf_lem malloc vsnprintf text (λ size. refl) (omega arith)

cpu_alloc_size_lem_example :
    (cpu_alloc_size 65 % 8 ≡ 0) × (65 ≤ 8 * cpu_alloc_size 65) × (8 * cpu_alloc_size 65 < 65 + 64)
cpu_alloc_size_lem_example = cpu_alloc_size_lem 65 (omega arith)

abbrev allocator : Allocator
allocator = record {
  malloc = λ count size. some (8192 + 64 * count);
  realloc = λ size. if ltb size 17 then some 4096 else none;
}

-- "a", "..", "b", each with a number before it
abbrev listing : List Dirent
listing =
    record { d_reclen = 2; bytes = 1 ∷ 97 ∷ 0 ∷ [] }
    ∷ record { d_reclen = 3; bytes = 2 ∷ 46 ∷ 46 ∷ 0 ∷ [] }
    ∷ record { d_reclen = 2; bytes = 3 ∷ 98 ∷ 0 ∷ [] }
    ∷ []

abbrev short_names : Dirent → Bool
short_names entry = entry.d_reclen == 2

abbrev nothing : Live
nothing x = 0

scandir-Scanned_example :
    Scanned
      (λ names. names)
      einval
      nothing
      (chosen short_names listing)
      none
      (scandir allocator short_names (λ names. names) (entries listing none) einval nothing)
scandir-Scanned_example =
    scandir-Scanned allocator short_names (λ names. names) listing none einval nothing (omega arith)

-- every name is taken
abbrev taken : Readlink
taken path size = target (120 ∷ [])

abbrev clock : ℕ → Timespec
clock attempt = record { tv_sec = 1700000000; tv_nsec = 1000 * attempt }

tempnam-Made_example :
    let front = template (dir_or none) (pfx_or (some (112 ∷ []))) in
    let r = tempnam malloc taken clock 77 none (some (112 ∷ [])) enoent in
    (path_max ≤ length front + 6) × (r ≡ failed enametoolong)
    ⊎ (length front + 6 < path_max) × Made malloc taken clock 77 0 100 front r
tempnam-Made_example = tempnam-Made malloc taken clock 77 none (some (112 ∷ [])) enoent
