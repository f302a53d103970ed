-- ===== src/Paths/Cwd.antt =====
-- `getcwd` and `get_current_dir_name` of src/path_overrides.c.
use libc_override.Base.{
  ℕ, Bool, true, false, not, ◌&&◌, ◌||◌, [], ◌∷◌, ◌++◌, Option, none, some, ◌==◌, if◌then◌else◌,
  Errno, einval, enoent,
}
use libc_override.Strings.{Malloc}
use libc_override.Paths.{
  FilePath, path_max, slash, Result, returned, failed, duplicate, starts, is_empty,
}

-- What `syscall(SYS_getcwd, buf, size)` does: an error, or a count with the string that it leaves in
-- the buffer.
pub data Answer : Type 0 where
  error : Errno → Answer
  wrote : ℕ → FilePath → Answer

-- The device and the number of a file, for a file that `stat` finds.
pub record Stat : Type 0 where
  pub st_dev : ℕ
  pub st_ino : ℕ

module _ (malloc : Malloc) (syscall : ℕ → Answer) where
  -- the string in the buffer is returned there, or copied from the stack
  unfoldable pub cwd_in : (own : Bool) → FilePath → Result
  unfolding duplicate
  cwd_in true buf = duplicate malloc buf
  cwd_in false buf = returned none (buf ++ 0 ∷ [])

  unfoldable pub answered : Bool → Answer → Result
  unfolding cwd_in
  answered own (error e) = failed e
  answered own (wrote ret buf) =
      if ret == 0 || not (starts slash buf) then failed enoent else cwd_in own buf

  -- the size of the caller's buffer, or NULL
  unfoldable pub getcwd : Option ℕ → Result
  unfolding answered
  getcwd none = answered true (syscall path_max)
  getcwd (some size) = if size == 0 then failed einval else answered false (syscall size)

  unfoldable pub same_file : Option Stat → Option Stat → Bool
  same_file (some a) (some b) = a.st_dev == b.st_dev && a.st_ino == b.st_ino
  same_file _ _ = false

  -- `getenv("PWD")` and `stat` are those of libc
  unfoldable pub get_current_dir_name :
      (pwd : Option FilePath) → (stat : FilePath → Option Stat) → Result
  unfolding getcwd same_file duplicate is_empty
  get_current_dir_name none stat = getcwd none
  get_current_dir_name (some pwd) stat =
      if not (is_empty pwd) && same_file (stat pwd) (stat (46 ∷ []))
      then duplicate malloc pwd
      else getcwd none
