-- ===== src/Base/Errors.antt =====
-- The values of `errno` that the libraries set themselves; `other` is any that libc left.
use Prim.Native.Nat.{ℕ}

pub data Errno : Type 0 where
  enomem einval enoent enametoolong eloop enosys : Errno
  other : ℕ → Errno
