-- ===== src/Bootstrap.antt =====
-- The bootstrap heap of src/mock_allocator.c: a bump allocator over a static array, which serves
-- the calls that `dlsym` makes while the real functions are being resolved. Nothing in it is freed.
pub mod Blocks
pub mod Realloc
use libc_override.Base.{
  ℕ, ◌+◌, ◌-◌, ◌*◌, ◌/◌, ◌%◌, ◌^◌, Bool, true, false, ◌&&◌, ◌||◌, not, List, [], ◌∷◌, leb, ltb,
  ◌==◌, if◌then◌else◌, add_word, Errno, enomem,
}

-- `AO_BOOTSTRAP_HEAP_SIZE`; `sizeof(ao_bootstrap_header)` and `sizeof(max_align_t)` as the 64-bit
-- ABIs of x86 and Arm have them
abbrev pub heap_size : ℕ
heap_size = 65536

abbrev pub header_size : ℕ
header_size = 48

abbrev pub align_size : ℕ
align_size = 32

-- `g_bootstrap_offset`, the bytes of `g_bootstrap_heap` by their index, and the thread's `errno`
pub record Arena : Type 0 where
  pub offset : ℕ
  pub bytes : ℕ → ℕ
  pub errno : Errno

-- a `size_t` in memory, lowest byte first
unfoldable pub store64 : (ℕ → ℕ) → ℕ → ℕ → ℕ → ℕ
store64 m at v a = if leb at a && ltb a (at + 8) then v / 256 ^ (a - at) % 256 else m a

unfoldable pub load64 : (ℕ → ℕ) → ℕ → ℕ
load64 m at =
    m at
    + 256 * m (at + 1)
    + 256 ^ 2 * m (at + 2)
    + 256 ^ 3 * m (at + 3)
    + 256 ^ 4 * m (at + 4)
    + 256 ^ 5 * m (at + 5)
    + 256 ^ 6 * m (at + 6)
    + 256 ^ 7 * m (at + 7)

-- `memcpy(to, from, n)` and `memset(at, 0, n)`
unfoldable pub copy : (ℕ → ℕ) → (target source n : ℕ) → ℕ → ℕ
copy m target source n a =
    if leb target a && ltb a (target + n) then m (source + (a - target)) else m a

unfoldable pub clear : (ℕ → ℕ) → (at n : ℕ) → ℕ → ℕ
clear m at n a = if leb at a && ltb a (at + n) then 0 else m a

-- `ao_align_up`
unfoldable pub align_up : ℕ → ℕ → ℕ
align_up value alignment =
    let remainder = value % alignment in
    if remainder == 0 then value else add_word value (alignment - remainder)

-- the bytes that a block takes, its header included
unfoldable pub block_size : ℕ → ℕ
unfolding align_up
block_size size = align_up (add_word header_size size) align_size

-- The loop that reserves `total` bytes: whether it succeeded, and the last offset that it loaded. A
-- compare-and-exchange that fails has loaded another value of the offset, from which the next round
-- starts: `others` lists those values.
unfoldable pub reserve : List ℕ → ℕ → ℕ → Bool × ℕ
reserve [] total current =
    if ltb heap_size current || ltb (heap_size - current) total
    then (false, current)
    else (true, current)
reserve (other ∷ others) total current =
    let next = reserve others total other in
    if ltb heap_size current || ltb (heap_size - current) total then (false, current) else next

-- `base` is the address of `g_bootstrap_heap`; pointers are addresses, and `NULL` is 0
module _ (base : ℕ) where
  unfoldable pub alloc_among : List ℕ → ℕ → Arena → ℕ × Arena
  alloc_among others size a =
      let total = block_size size in
      let (reserved, current) = reserve others total a.offset in
      if reserved
      then (
        base + current + header_size,
        record a { offset = current + total; bytes = store64 a.bytes current size },
      )
      else (0, record a { offset = current; errno = enomem })

  -- `ao_bootstrap_alloc` where no other thread interferes
  unfoldable pub alloc : ℕ → Arena → ℕ × Arena
  unfolding alloc_among
  alloc size a = alloc_among [] size a

  unfoldable pub contains : ℕ → Bool
  contains p = leb base p && ltb p (base + heap_size)

  unfoldable pub realloc : ℕ → ℕ → Arena → ℕ × Arena
  realloc p size a =
      if p == 0
      then alloc size a
      else if not (contains p)
      then (0, record a { errno = enomem })
      else let header = p - base - header_size in
        let (new, a') = alloc size a in
        let requested = load64 a'.bytes header in
        let copy_size = if ltb requested size then requested else size in
        if new == 0
        then (0, a')
        else if copy_size == 0
        then (new, a')
        else (new, record a' { bytes = copy a'.bytes (new - base) (p - base) copy_size })
