-- ===== src/Bootstrap/Realloc.antt =====
-- `ao_bootstrap_realloc`, and the requests whose size wraps.
use libc_override.Base.{
  ℕ, ◌+◌, ◌-◌, ◌≤◌, ◌<◌, ◌^◌, ◌≡◌, ◌≢◌, true, arith, ◌∙◌, ◌⊎◌, inl, inr, ltb, if◌then◌else◌,
  size_max, ap,
}
use native.Mathlib.Decide.{ℕ_discrete}
use libc_override.Bootstrap.Blocks.{
  IsBlock, IsBlock-Keeps, Keeps, Fails, Takes, alloc_lem, load64_congr, block_size_wraps,
}
use libc_override.Bootstrap.{
  Arena, heap_size, header_size, load64, copy, block_size, reserve, alloc, contains, realloc,
}

copy-below : (m : ℕ → ℕ) (target source n i : ℕ) → i < target → copy m target source n i ≡ m i
unfolding copy
copy-below m target source n i h = ground arith

copy-inside :
    (m : ℕ → ℕ) (target source n i : ℕ)
    → i < n
    → copy m target source n (target + i) ≡ m (source + i)
unfolding copy
copy-inside m target source n i h =
    let e : target + i - target ≡ i = omega arith in rw e (ground arith)

abbrev least : ℕ → ℕ → ℕ
least a b = if ltb a b then a else b

module _ (base : ℕ) (a : Arena) {o n : ℕ} (k : IsBlock a o n) (size : ℕ) where
  -- the block of a reallocation that succeeds
  pub record Moves (r : ℕ × Arena) : Type 0 where
    pub pointer : r.0 ≡ base + a.offset + header_size
    pub block : IsBlock r.1 a.offset size
    pub old : IsBlock r.1 o n
    pub keeps : Keeps a a.offset r.1
    pub contents :
        (i : ℕ)
        → i < least n size
        → r.1.bytes (a.offset + header_size + i) ≡ a.bytes (o + header_size + i)

  abbrev taken : ℕ × Arena
  taken = alloc base size a

  abbrev ptr : ℕ
  ptr = base + o + header_size

  pub contains-IsBlock : contains base ptr ≡ true
  unfolding contains
  contains-IsBlock = ground (arith, k.starts, k.bound)

  realloc_fails : 0 < base → taken.0 ≡ 0 → realloc base ptr size a ≡ taken
  unfolding realloc
  realloc_fails pos e = ground (arith, contains-IsBlock)

  realloc_empty :
      0 < base
      → taken.0 ≢ 0
      → least (load64 taken.1.bytes o) size ≡ 0
      → realloc base ptr size a ≡ taken
  unfolding realloc
  realloc_empty pos ne e =
      let at : ptr - base - header_size ≡ o = omega arith in
      ground (arith, contains-IsBlock, ap (load64 taken.1.bytes) at)

  realloc_copies :
      0 < base
      → taken.0 ≢ 0
      → least (load64 taken.1.bytes o) size ≢ 0
      → realloc base ptr size a ≡ (
        taken.0,
        record taken.1 {
          bytes =
              copy taken.1.bytes
                (taken.0 - base)
                (ptr - base)
                (least (load64 taken.1.bytes o) size);
        },
      )
  unfolding realloc
  realloc_copies pos ne e =
      let at : ptr - base - header_size ≡ o = omega arith in
      ground (arith, contains-IsBlock, ap (load64 taken.1.bytes) at)

  module _ (pos : 0 < base) (t : Takes base size a taken) where
    old_block : IsBlock taken.1 o n
    old_block = IsBlock-Keeps k t.keeps (omega (arith, t.offset)) t.block.bound

    Moves-empty : least n size ≡ 0 → Moves taken
    Moves-empty e = record {
      pointer = t.pointer;
      block = t.block;
      old = old_block;
      keeps = t.keeps;
      contents = λ i h. absurd (omega arith);
    }

    Moves-copied : Moves (
      taken.0,
      record taken.1 { bytes = copy taken.1.bytes (taken.0 - base) (ptr - base) (least n size) },
    )
    Moves-copied =
        let target : taken.0 - base ≡ a.offset + header_size = omega (arith, t.pointer) in
        let source : ptr - base ≡ o + header_size = omega arith in
        let m = taken.1.bytes in
        let below = λ (i : ℕ) (h : i < a.offset + header_size).
          copy-below m (a.offset + header_size) (o + header_size) (least n size) i h in
        rw (target, source)
          (record {
            pointer = t.pointer;
            block = record {
              starts = t.block.starts;
              within = t.block.within;
              bound = t.block.bound;
              sized =
                  load64_congr _ _ _ (a.offset + header_size) below (omega arith) ∙ t.block.sized;
            };
            old = record {
              starts = old_block.starts;
              within = old_block.within;
              bound = old_block.bound;
              sized =
                  load64_congr _ _ _ (a.offset + header_size) below (omega (arith, k.within))
                  ∙ old_block.sized;
            };
            keeps = λ i h. below i (omega arith) ∙ t.keeps i h;
            contents = λ i h.
                copy-inside m (a.offset + header_size) (o + header_size) (least n size) i h
                ∙ t.keeps (o + header_size + i) (ground (arith, k.within));
          })

    -- what the program copies is counted by the header that it reads
    counted : load64 taken.1.bytes o ≡ n
    counted = old_block.sized

    realloc-Moves : Moves (realloc base ptr size a)
    realloc-Moves =
        let ne : taken.0 ≢ 0 = omega (arith, t.pointer) in
        elim (ℕ_discrete (least n size) 0) [
          | yes e ↦ rw (realloc_empty pos ne (rw counted e)) (Moves-empty e)
          | no e ↦ rw (realloc_copies pos ne (rw counted e), counted) Moves-copied
        ]

  -- A block of the bootstrap heap is reallocated by a copy: the result has the new size and the old
  -- contents up to the smaller size, and every older byte stays. It fails only for want of room,
  -- and then changes nothing but `errno`.
  pub realloc_lem :
      0 < base
      → size + 80 ≤ 2 ^ 64
      → (heap_size < a.offset + block_size size) × Fails base size a (realloc base ptr size a)
        ⊎ Moves (realloc base ptr size a)
  realloc_lem pos small = elim (alloc_lem base size a small) [
    | inl (p, f) ↦ inl (p, rw (realloc_fails pos f.null) f)
    | inr (p, t) ↦ inr (realloc-Moves pos t)
  ]

-- A request within 80 bytes of the largest `size_t` wraps: it takes at most 64 bytes, and
-- succeeds wherever they are free, with a block that ends behind the heap.
pub alloc_wraps :
    (base size : ℕ) (a : Arena)
    → 0 < base
    → size ≤ size_max
    → 2 ^ 64 < size + 80
    → a.offset + 64 ≤ heap_size
    → let (p, a') = alloc base size a in
      (p ≡ base + a.offset + header_size)
      × (a'.offset ≤ a.offset + 64)
      × (base + heap_size < p + size)
unfolding alloc reserve
alloc_wraps base size a pos small big free = ground (arith, block_size_wraps size small big)
