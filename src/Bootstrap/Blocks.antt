-- ===== src/Bootstrap/Blocks.antt =====
-- The blocks of the bootstrap heap: where they lie, and what they keep.
use libc_override.Base.{
  ℕ, ◌+◌, ◌-◌, ◌*◌, ◌/◌, ◌%◌, ◌≤◌, ◌<◌, ◌^◌, ◌≡◌, refl, true, false, arith, ◌∙◌, List, [], ◌∷◌, ◌⊎◌,
  inl, inr, size_max, enomem,
}
use native.Mathlib.Decide.{dec_lt}
use native.Mathlib.Nat.{add-zero}
use libc_override.Bootstrap.{
  Arena, heap_size, header_size, align_size, store64, load64, block_size, reserve, alloc,
}

store64-byte : (m : ℕ → ℕ) (at v i : ℕ) → i < 8 → store64 m at v (at + i) ≡ v / 256 ^ i % 256
unfolding store64
store64-byte m at v i h = let e : at + i - at ≡ i = omega arith in rw e (ground arith)

digits64 :
    (v : ℕ)
    → v < 2 ^ 64
    → v % 256
        + 256 * (v / 256 % 256)
        + 256 ^ 2 * (v / 256 ^ 2 % 256)
        + 256 ^ 3 * (v / 256 ^ 3 % 256)
        + 256 ^ 4 * (v / 256 ^ 4 % 256)
        + 256 ^ 5 * (v / 256 ^ 5 % 256)
        + 256 ^ 6 * (v / 256 ^ 6 % 256)
        + 256 ^ 7 * (v / 256 ^ 7 % 256)
      ≡ v
digits64 v h = omega arith

-- A stored word reads back.
pub load64-store64 : (m : ℕ → ℕ) (at v : ℕ) → v < 2 ^ 64 → load64 (store64 m at v) at ≡ v
unfolding load64
load64-store64 m at v h =
    let byte = λ (i : ℕ) (small : i < 8). store64-byte m at v i small in
    let first : store64 m at v at ≡ v / 1 % 256 = rw add-zero at (byte 0 (omega arith)) in
    omega (
      arith,
      digits64 v h,
      first,
      byte 1 (omega arith),
      byte 2 (omega arith),
      byte 3 (omega arith),
      byte 4 (omega arith),
      byte 5 (omega arith),
      byte 6 (omega arith),
      byte 7 (omega arith),
    )

pub block_size-lem :
    (size : ℕ)
    → size + 80 ≤ 2 ^ 64
    → (header_size < block_size size)
      × (size + header_size ≤ block_size size)
      × (block_size size < size + header_size + align_size)
unfolding block_size
block_size-lem size h = ground arith

-- a request so large that the sum with the header or the alignment wraps
pub block_size_wraps : (size : ℕ) → size ≤ size_max → 2 ^ 64 < size + 80 → block_size size ≤ 64
unfolding block_size
block_size_wraps size small big = ground arith

-- the offset that the last compare-and-exchange replaced
pub last_seen : List ℕ → ℕ → ℕ
last_seen [] current = current
last_seen (other ∷ others) current = last_seen others other

-- Whatever the other threads reserve meanwhile, a reservation that succeeds starts at the offset
-- that its compare-and-exchange replaced, and lies within the heap.
pub reserve_lem :
    (others : List ℕ) (total current : ℕ)
    → (reserve others total current).0 ≡ true
    → ((reserve others total current).1 ≡ last_seen others current)
      × ((reserve others total current).1 + total ≤ heap_size)
unfolding reserve last_seen
reserve_lem [] total current h = ground arith
reserve_lem (o ∷ os) total current h = ground (arith, reserve_lem os total o)

store64-below : (m : ℕ → ℕ) (at v i : ℕ) → i < at → store64 m at v i ≡ m i
unfolding store64
store64-below m at v i h = ground arith

-- the block behind the header at index `o` has `n` bytes, and says so
pub record IsBlock (a : Arena) (o n : ℕ) : Type 0 where
  pub starts : o + header_size < a.offset
  pub within : o + header_size + n ≤ a.offset
  pub bound : a.offset ≤ heap_size
  pub sized : load64 a.bytes o ≡ n

-- the bytes below `top` are those of `a`
abbrev pub Keeps : Arena → ℕ → Arena → Type 0
Keeps a top b = (i : ℕ) → i < top → b.bytes i ≡ a.bytes i

pub load64_congr :
    (m m' : ℕ → ℕ) (o top : ℕ)
    → ((i : ℕ) → i < top → m' i ≡ m i)
    → o + 8 ≤ top
    → load64 m' o ≡ load64 m o
unfolding load64
load64_congr m m' o top same h = ground (
  arith,
  same o,
  same (o + 1),
  same (o + 2),
  same (o + 3),
  same (o + 4),
  same (o + 5),
  same (o + 6),
  same (o + 7),
)

pub IsBlock-Keeps :
    {a b : Arena} {o n : ℕ}
    → IsBlock a o n
    → Keeps a a.offset b
    → a.offset ≤ b.offset
    → b.offset ≤ heap_size
    → IsBlock b o n
IsBlock-Keeps {a} {b} {o} k same grown bound = record {
  starts = omega (arith, k.starts);
  within = omega (arith, k.within);
  bound = bound;
  sized = load64_congr a.bytes b.bytes o a.offset same (omega (arith, k.within)) ∙ k.sized;
}

module _ (base : ℕ) (size : ℕ) (a : Arena) where
  -- what an allocation does when it fails and when it succeeds
  pub record Fails (r : ℕ × Arena) : Type 0 where
    pub null : r.0 ≡ 0
    pub offset : r.1.offset ≡ a.offset
    pub bytes : r.1.bytes ≡ a.bytes
    pub errno : r.1.errno ≡ enomem

  pub record Takes (r : ℕ × Arena) : Type 0 where
    pub pointer : r.0 ≡ base + a.offset + header_size
    pub offset : r.1.offset ≡ a.offset + block_size size
    pub block : IsBlock r.1 a.offset size
    pub keeps : Keeps a a.offset r.1

  -- A request whose sum with header and alignment does not wrap takes a block of the heap behind all
  -- others, which has the size, lies within the heap and overwrites nothing below it. It fails
  -- exactly for want of room, with ENOMEM, and then changes nothing else.
  pub alloc_lem :
      size + 80 ≤ 2 ^ 64
      → (heap_size < a.offset + block_size size) × Fails (alloc base size a)
        ⊎ (a.offset + block_size size ≤ heap_size) × Takes (alloc base size a)
  unfolding alloc reserve
  alloc_lem small = elim (dec_lt heap_size (a.offset + block_size size)) [
    | yes p ↦
        let stuck : reserve [] (block_size size) a.offset ≡ (false, a.offset) = ground arith in
        inl
          (p, rw (stuck, alloc) (record { null = refl; offset = refl; bytes = refl; errno = refl }))
    | no p ↦
        let taken : reserve [] (block_size size) a.offset ≡ (true, a.offset) = ground arith in
        inr (
          omega arith,
          rw (taken, alloc)
              (record {
                pointer = refl;
                offset = refl;
                block = record {
                  starts = omega (arith, block_size-lem size small);
                  within = omega (arith, block_size-lem size small);
                  bound = omega arith;
                  sized = load64-store64 a.bytes a.offset size (omega arith);
                };
                keeps = λ i h. store64-below a.bytes a.offset size i h;
              }),
        )
  ]
