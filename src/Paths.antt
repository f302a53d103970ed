-- ===== src/Paths.antt =====
-- The names of files in src/path_overrides.c: what is shared by `getcwd`, `realpath` and `tempnam`.
-- A path is the list of its bytes, none of them zero, and a string ends with a zero behind it.
pub mod Cwd
pub mod Realpath
pub mod Tempnam
use libc_override.Base.{
  ℕ, zero, suc, ◌+◌, ◌*◌, ◌≤◌, Bool, true, false, List, [], ◌∷◌, ◌++◌, Option, none, some, ◌==◌,
  if◌then◌else◌, Errno, enomem, einval,
}
use libc_override.Strings.{Malloc, strdup}

abbrev pub FilePath : Type 0
FilePath = List ℕ

-- `PATH_MAX`
abbrev pub path_max : ℕ
path_max = 4096

abbrev pub slash : ℕ
slash = 47

abbrev pub dot : ℕ
dot = 46

-- A pointer to a string, or NULL with `errno`. A string is where it stands, `none` for the caller's
-- buffer, with its bytes. `out_of_fuel` belongs to the model only.
pub data Result : Type 0 where
  returned : Option ℕ → List ℕ → Result
  failed : Errno → Result
  out_of_fuel : Result

unfoldable pub copied : Option (ℕ × List ℕ) → Result
copied none = failed enomem
copied (some (at, s)) = returned (some at) s

-- `strdup` of a path
unfoldable pub duplicate : Malloc → FilePath → Result
unfolding copied strdup
duplicate malloc path = copied (strdup malloc (path ++ 0 ∷ []))

unfoldable pub starts : ℕ → List ℕ → Bool
starts c [] = false
starts c (d ∷ s) = d == c

unfoldable pub is_empty : List ℕ → Bool
is_empty [] = true
is_empty (c ∷ s) = false

unfoldable pub is_einval : Errno → Bool
is_einval einval = true
is_einval _ = false

-- `ao_strchrnul`: the bytes before the pointer that it returns, and those from it on
unfoldable pub strchrnul : ℕ → List ℕ → List ℕ × List ℕ
strchrnul c [] = ([], [])
strchrnul c (d ∷ s) =
    let rest = strchrnul c s in if d == c then ([], d ∷ s) else (d ∷ rest.0, rest.1)

-- the string from `s + ao_slash_len(s)` on
unfoldable pub skip_slashes : List ℕ → List ℕ
skip_slashes [] = []
skip_slashes (c ∷ s) = let rest = skip_slashes s in if c == slash then rest else c ∷ s
