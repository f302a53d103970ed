-- ===== src/Paths/Tempnam.antt =====
-- `tempnam` of src/path_overrides.c and `ao_randname` of src/helpers.c.
pub mod Fresh
use Prim.Native.Nat.{bit_xor}
use libc_override.Base.{
  ℕ, zero, suc, ◌+◌, ◌-◌, ◌*◌, ◌/◌, ◌%◌, ◌^◌, Bool, true, false, List, [], ◌∷◌, ◌++◌, length,
  Option, none, some, ltb, leb, if◌then◌else◌, mul_word, Errno, enoent, enametoolong,
}
use libc_override.Strings.{Malloc}
use libc_override.Paths.{FilePath, path_max, slash, Result, returned, failed, duplicate}
use libc_override.Paths.Realpath.{Readlink, Link, error, target}

-- `CLOCK_REALTIME` as it stands when a name is made
pub record Timespec : Type 0 where
  pub tv_sec : ℕ
  pub tv_nsec : ℕ

-- `alphabet`: the capital letters, the small letters and the digits
unfoldable pub letter : ℕ → ℕ
letter i = if ltb i 26 then 65 + i else if ltb i 52 then 97 + (i - 26) else 48 + (i - 52)

-- the letters from the `i`-th on, `count` of them
unfoldable pub letters : (count i value : ℕ) → FilePath
unfolding letter
letters zero i value = []
letters (suc count) i value =
    letter (value % 62)
    ∷ letters count (i + 1)
        (bit_xor (bit_xor (value / 2 ^ 5) (mul_word value (2 ^ 11))) (i * 97 + 13))

unfoldable pub randname : Timespec → (tid : ℕ) → FilePath
unfolding letters
randname ts tid = letters 6 0 (bit_xor (bit_xor ts.tv_sec ts.tv_nsec) (mul_word tid 65537))

-- `P_tmpdir` and the prefix that stand for NULL
unfoldable pub dir_or : Option FilePath → FilePath
dir_or none = 47 ∷ 116 ∷ 109 ∷ 112 ∷ []
dir_or (some dir) = dir

unfoldable pub pfx_or : Option FilePath → FilePath
pfx_or none = 116 ∷ 101 ∷ 109 ∷ 112 ∷ []
pfx_or (some pfx) = pfx

-- the path but for its last six bytes
unfoldable pub template : (dir pfx : FilePath) → FilePath
template dir pfx = dir ++ slash ∷ (pfx ++ 95 ∷ [])

unfoldable pub is_enoent : Errno → Bool
is_enoent enoent = true
is_enoent _ = false

-- `errno` behind a call of `readlink`
unfoldable pub errno_of : Link → Errno → Errno
errno_of (error e) errno = e
errno_of (target text) errno = errno

-- `readlink(...) < 0 && errno == ENOENT`
unfoldable pub is_free : Link → Bool
unfolding is_enoent
is_free (error e) = is_enoent e
is_free (target text) = false

module _ (malloc : Malloc) (readlink : Readlink) (clock : ℕ → Timespec) (tid : ℕ) where
  -- the tries that are left, with the number of the next one, which the clock is read at
  unfoldable pub tries : (left attempt : ℕ) → FilePath → Errno → Result
  unfolding duplicate randname is_free errno_of
  tries zero attempt front errno = failed errno
  tries (suc left) attempt front errno =
      let path = front ++ randname (clock attempt) tid in
      let answer = readlink path 1 in
      let rest = tries left (attempt + 1) front (errno_of answer errno) in
      if is_free answer then duplicate malloc path else rest

  unfoldable pub tempnam : (dir pfx : Option FilePath) → Errno → Result
  unfolding tries dir_or pfx_or template
  tempnam dir pfx errno =
      let total_len = length (dir_or dir) + 1 + length (pfx_or pfx) + 1 + 6 in
      let made = tries 100 0 (template (dir_or dir) (pfx_or pfx)) errno in
      if leb path_max total_len then failed enametoolong else made
