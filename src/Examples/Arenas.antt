-- ===== src/Examples/Arenas.antt =====
-- The theorems on the bootstrap heap, at a block of 24 bytes and at a size that wraps.
use libc_override.Base.{◌+◌, ◌<◌, ◌≤◌, ◌≡◌, ◌⊎◌, arith, other, size_max}
use libc_override.Bootstrap.Blocks.{IsBlock, Fails, Takes, alloc_lem, load64-store64}
use libc_override.Bootstrap.Realloc.{Moves, realloc_lem, alloc_wraps}
use libc_override.Bootstrap.{Arena, heap_size, header_size, block_size, alloc, realloc, store64}

abbrev arena : Arena
arena = record { offset = 0; bytes = λ i. 0; errno = other 0 }

alloc_lem_example :
    (heap_size < 0 + block_size 24) × Fails 4096 24 arena (alloc 4096 24 arena)
    ⊎ (0 + block_size 24 ≤ heap_size) × Takes 4096 24 arena (alloc 4096 24 arena)
alloc_lem_example = alloc_lem 4096 24 arena (omega arith)

-- the heap with a block of 24 bytes at its start
abbrev used : Arena
used = record { offset = 96; bytes = store64 (λ i. 0) 0 24; errno = other 0 }

used-IsBlock : IsBlock used 0 24
used-IsBlock = record {
  starts = omega arith;
  within = omega arith;
  bound = omega arith;
  sized = load64-store64 (λ i. 0) 0 24 (omega arith);
}

realloc_lem_example :
    (heap_size < 96 + block_size 40)
      × Fails 4096 40 used (realloc 4096 (4096 + 0 + header_size) 40 used)
    ⊎ Moves 4096 used used-IsBlock 40 (realloc 4096 (4096 + 0 + header_size) 40 used)
realloc_lem_example = realloc_lem 4096 used used-IsBlock 40 (omega arith) (omega arith)

alloc_wraps_example :
    let (p, a') = alloc 4096 size_max arena in
    (p ≡ 4096 + 0 + header_size) × (a'.offset ≤ 0 + 64) × (4096 + heap_size < p + size_max)
alloc_wraps_example =
    alloc_wraps 4096 size_max arena (omega arith) (omega arith) (omega arith) (omega arith)
