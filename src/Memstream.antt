-- ===== src/Memstream.antt =====
-- The memory streams of bytes in src/memstream_overrides.c: the functions that `open_memstream` hands to
-- `fopencookie`, on the state behind them.
pub mod Write
pub mod Open
pub mod Sequence
pub mod Wide
use Prim.Native.Nat.{bit_or}
use libc_override.Base.{
  ℕ, ◌+◌, ◌-◌, ◌*◌, ◌/◌, ◌^◌, Bool, true, false, ◌&&◌, List, [], ◌∷◌, length, Option, none, some,
  ltb, leb, ◌==◌, if◌then◌else◌, add_word, sub_word, size_max, Errno, enomem, einval,
}

-- `ao_memstream_cookie` with the bytes at `buf`, what the caller sees at `bufp` and `sizep`, and
-- `errno`
pub record Cookie : Type 0 where
  pub pos : ℕ
  pub buf : ℕ
  pub bytes : ℕ → ℕ
  pub len : ℕ
  pub space : ℕ
  pub bufp : ℕ
  pub sizep : ℕ
  pub errno : Errno

-- What `realloc` may answer to a size: a block, with the bytes that it happens to have behind those
-- that are kept, or nothing.
abbrev pub Realloc : Type 0
Realloc = ℕ → Option (ℕ × (ℕ → ℕ))

-- `SSIZE_MAX`
abbrev pub ssize_max : ℕ
ssize_max = 2 ^ 63 - 1

-- the size that a full buffer asks for
unfoldable pub new_space : (space required : ℕ) → ℕ
new_space space required =
    let doubled = if ltb ((size_max - 1) / 2) space then size_max else 2 * space + 1 in
    let wanted = bit_or doubled required in if ltb wanted required then required else wanted

-- the `realloc` and the `memset` of its new part
unfoldable pub enlarge : ℕ → Option (ℕ × (ℕ → ℕ)) → Cookie → Bool × Cookie
enlarge size none c = (false, record c { errno = enomem })
enlarge size (some (new_buf, tail)) c = (
  true,
  record c {
    buf = new_buf;
    bytes = λ i. if ltb i c.space then c.bytes i else if ltb i size then 0 else tail i;
    space = size;
    bufp = new_buf;
  },
)

unfoldable pub grow : Realloc → ℕ → Cookie → Bool × Cookie
grow realloc len c =
    let required = add_word (add_word c.pos len) 1 in
    let size = new_space c.space required in
    let grown = enlarge size (realloc size) c in
    if ltb (sub_word (sub_word size_max len) 1) c.pos
    then (false, record c { errno = enomem })
    else if leb required c.space
    then (true, c)
    else grown

-- the bytes of a list, and what they are written over
unfoldable pub overlay : ℕ → List ℕ → (ℕ → ℕ) → ℕ → ℕ
overlay at [] m i = m i
overlay at (b ∷ bs) m i = let rest = overlay (at + 1) bs m i in if i == at then b else rest

-- the code behind a growth that succeeded
unfoldable pub put : List ℕ → Cookie → Cookie
put text c =
    let pos = add_word c.pos (length text) in
    record c {
      bytes = overlay c.pos text c.bytes;
      pos = pos;
      len = if leb c.len pos then pos else c.len;
      sizep = pos;
    }

-- what is returned is the number of bytes, and 0 for a failure
unfoldable pub wrote : List ℕ → Bool × Cookie → ℕ × Cookie
wrote text (true, c) = (length text, put text c)
wrote text (false, c) = (0, c)

unfoldable pub write : Realloc → List ℕ → Cookie → ℕ × Cookie
write realloc text c = wrote text (grow realloc (length text) c)

-- an `off_t`: forwards, or backwards by one more
pub data Offset : Type 0 where
  ahead back : ℕ → Offset

-- `SEEK_SET`, `SEEK_CUR` and `SEEK_END`, or another number
pub data Whence : Type 0 where
  set cur end other : Whence

unfoldable pub seek_from : ℕ → Offset → Option ℕ
seek_from base (ahead n) = if ltb (ssize_max - base) n then none else some (base + n)
seek_from base (back n) = if leb base n then none else some (base - (n + 1))

-- the new position, in the result and in `*offset`, or `none` with EINVAL; positions are below
-- 2 ^ 63
unfoldable pub target_of : Offset → Whence → Cookie → Option ℕ
target_of offset set c = seek_from 0 offset
target_of offset cur c = seek_from c.pos offset
target_of offset end c = seek_from c.len offset
target_of offset other c = none

unfoldable pub moved_to : Option ℕ → Cookie → Option ℕ × Cookie
moved_to none c = (none, record c { errno = einval })
moved_to (some pos) c = (some pos, record c { pos = pos })

unfoldable pub seek : Offset → Whence → Cookie → Option ℕ × Cookie
seek offset whence c = moved_to (target_of offset whence c) c

-- the state that `open_memstream` starts from, with a block of one zero byte at `buf`
unfoldable pub open_cookie : ℕ → Errno → Cookie
open_cookie buf errno = record {
  pos = 0;
  buf = buf;
  bytes = λ i. 0;
  len = 0;
  space = 0;
  bufp = buf;
  sizep = 0;
  errno = errno;
}
