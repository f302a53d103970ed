-- ===== src/Memstream/Open.antt =====
-- Opening and closing memory streams: `open_memstream`, `open_wmemstream` and the close functions of
-- src/memstream_overrides.c. The two kinds differ in the size of a character, and in the conversion
-- state, which starts as zero.
use libc_override.Base.{ℕ, ◌+◌, ◌≡◌, refl, Option, none, some, arith, inr, Errno}
use libc_override.Base.Live.{Live, alloc, free, at, alloc_lem, free_lem}
use libc_override.Memstream.{Cookie, open_cookie}
use libc_override.Memstream.Write.{IsStream}

-- the answers of the two calls of `malloc`, for the cookie and for the buffer, and of `fopencookie`
pub record Answers : Type 0 where
  pub cookie : Option ℕ
  pub buf : Option ℕ
  pub stream : Option ℕ

-- NULL, or a stream with its cookie and where that stands; and the blocks that are allocated
pub data Opened : Type 0 where
  null : Live → Opened
  opened : (stream at : ℕ) → Cookie → Live → Opened

unfoldable pub with_stream : Option ℕ → (cookie buf : ℕ) → Errno → Live → Opened
unfolding open_cookie free
with_stream none cookie buf errno live = null (free (some cookie) (free (some buf) live))
with_stream (some stream) cookie buf errno live = opened stream cookie (open_cookie buf errno) live

unfoldable pub with_buf : Option ℕ → (stream : Option ℕ) → (cookie : ℕ) → Errno → Live → Opened
unfolding with_stream alloc free
with_buf none stream cookie errno live = null (free (some cookie) live)
with_buf (some buf) stream cookie errno live = with_stream stream cookie buf errno (alloc buf live)

unfoldable pub with_cookie : Option ℕ → Answers → Errno → Live → Opened
unfolding with_buf alloc
with_cookie none a errno live = null live
with_cookie (some cookie) a errno live = with_buf a.buf a.stream cookie errno (alloc cookie live)

unfoldable pub open_memstream : Answers → Errno → Live → Opened
unfolding with_cookie
open_memstream a errno live = with_cookie a.cookie a errno live

-- the buffer stays with the caller
unfoldable pub close : (at : ℕ) → Live → ℕ × Live
unfolding free
close at live = (0, free (some at) live)

module _ (a : Answers) (live : Live) where
  -- Nothing was opened, and no block is left; or an empty stream stands in two new blocks, and closing
  -- it leaves just the buffer of the caller.
  abbrev pub IsOpened : Opened → Type 0
  IsOpened (null now) = (x : ℕ) → now x ≡ live x
  IsOpened (opened stream cookie c now) =
      IsStream c
      × (c.len ≡ 0)
      × (c.pos ≡ 0)
      × (c.sizep ≡ 0)
      × ((x : ℕ) → (close cookie now).1 x ≡ live x + at x (some c.bufp))

  freed_pair :
      (cookie buf x : ℕ)
      → free (some cookie) (alloc buf (alloc cookie live)) x ≡ live x + at x (some buf)
  freed_pair cookie buf x =
      free_lem (some cookie) (alloc buf (alloc cookie live)) x (live x + at x (some buf))
        (omega (arith, alloc_lem buf (alloc cookie live) x, alloc_lem cookie live x))

  with_stream-IsOpened :
      (stream : Option ℕ) (cookie buf : ℕ) (errno : Errno)
      → IsOpened (with_stream stream cookie buf errno (alloc buf (alloc cookie live)))
  unfolding with_stream open_cookie close
  with_stream-IsOpened none cookie buf errno = λ x.
      let now = alloc buf (alloc cookie live) in
      free_lem (some cookie) (free (some buf) now) x (live x) (
        free_lem (some buf) now x (live x + at x (some cookie))
          (omega (arith, alloc_lem buf (alloc cookie live) x, alloc_lem cookie live x)))
  with_stream-IsOpened (some stream) cookie buf errno = (
    record { zeros = λ i h k. refl; room = inr (refl, refl); current = refl },
    refl,
    refl,
    refl,
    freed_pair cookie buf,
  )

  with_buf-IsOpened :
      (buf stream : Option ℕ) (cookie : ℕ) (errno : Errno)
      → IsOpened (with_buf buf stream cookie errno (alloc cookie live))
  unfolding with_buf
  with_buf-IsOpened none stream cookie errno =
      λ x. free_lem (some cookie) (alloc cookie live) x (live x) (alloc_lem cookie live x)
  with_buf-IsOpened (some buf) stream cookie errno = with_stream-IsOpened stream cookie buf errno

  with_cookie-IsOpened :
      (cookie : Option ℕ) (errno : Errno) → IsOpened (with_cookie cookie a errno live)
  unfolding with_cookie
  with_cookie-IsOpened none errno = λ x. refl
  with_cookie-IsOpened (some cookie) errno = with_buf-IsOpened a.buf a.stream cookie errno

-- `open_memstream` returns NULL and leaves no block behind, whichever of its three calls fails, or an
-- empty stream at position 0 that keeps the invariant of the writes. When such a stream is closed at
-- once, the caller's buffer is the one block that is left.
pub open_memstream-IsOpened :
    (a : Answers) (errno : Errno) (live : Live) → IsOpened a live (open_memstream a errno live)
unfolding open_memstream
open_memstream-IsOpened a errno live = with_cookie-IsOpened a live a.cookie errno
