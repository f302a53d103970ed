-- ===== src/Mock/World.antt =====
-- What src/mock_allocator.c takes from outside: the real allocator that `dlsym` finds behind it,
-- and what `dlsym` does.
use libc_override.Base.{ℕ, ◌≡◌, ◌≢◌, Bool, false, ◌&&◌, not, List, ◌==◌, if◌then◌else◌}

-- The real functions, over a heap of their own. `live h p` says that `p` was returned and not yet
-- freed; a pointer is an address, and 0 is `NULL`.
pub record RealAllocator : Type 1 where
  pub Heap : Type 0
  pub live : Heap → ℕ → Bool
  pub malloc : ℕ → Heap → ℕ × Heap
  pub calloc : ℕ → ℕ → Heap → ℕ × Heap
  pub realloc : ℕ → ℕ → Heap → ℕ × Heap
  pub free : ℕ → Heap → Heap

-- whether `q` is live after a call that returned `p`
abbrev pub also : ℕ → Bool → ℕ → Bool
also p before q = if q == p then not (p == 0) else before

-- The documented behaviour: what is returned is `NULL` or a new block, aligned past the addresses
-- 0 and 1; a successful `realloc`, and one to size 0 that returns `NULL`, has freed the old block.
pub record IsAllocator (r : RealAllocator) : Type 0 where
  pub null_dead : (h : r.Heap) → r.live h 0 ≡ false
  pub malloc-live :
      (n : ℕ) (h : r.Heap) (q : ℕ)
      → r.live (r.malloc n h).1 q ≡ also (r.malloc n h).0 (r.live h q) q
  pub malloc-new : (n : ℕ) (h : r.Heap) → r.live h (r.malloc n h).0 ≡ false
  pub malloc-ne-one : (n : ℕ) (h : r.Heap) → (r.malloc n h).0 ≢ 1
  pub calloc-live :
      (m n : ℕ) (h : r.Heap) (q : ℕ)
      → r.live (r.calloc m n h).1 q ≡ also (r.calloc m n h).0 (r.live h q) q
  pub calloc-new : (m n : ℕ) (h : r.Heap) → r.live h (r.calloc m n h).0 ≡ false
  pub calloc-ne-one : (m n : ℕ) (h : r.Heap) → (r.calloc m n h).0 ≢ 1
  pub realloc-live :
      (p n : ℕ) (h : r.Heap) (q : ℕ)
      → r.live (r.realloc p n h).1 q ≡ (
          if ((r.realloc p n h).0 == 0) && not (n == 0)
          then r.live h q
          else also (r.realloc p n h).0 (if q == p then false else r.live h q) q)
  pub realloc-new :
      (p n : ℕ) (h : r.Heap) → (r.realloc p n h).0 ≢ p → r.live h (r.realloc p n h).0 ≡ false
  pub realloc-ne-one : (p n : ℕ) (h : r.Heap) → (r.realloc p n h).0 ≢ 1
  pub free-live :
      (p : ℕ) (h : r.Heap) (q : ℕ) → r.live (r.free p h) q ≡ (if q == p then false else r.live h q)

-- a call that `dlsym` makes back into the allocator
pub data Request : Type 0 where
  malloc : ℕ → Request
  calloc : ℕ → ℕ → Request
  realloc : ℕ → ℕ → Request
  free : ℕ → Request

-- the four symbols that are resolved
pub data Symbol : Type 0 where
  malloc calloc realloc free : Symbol

-- `base` is the address of `g_bootstrap_heap`. `dlsym` makes the calls `requests s` while it looks
-- for `s`, and finds it or not; what it finds are the functions of `real`.
pub record Env : Type 1 where
  pub real : RealAllocator
  pub base : ℕ
  pub requests : Symbol → List Request
  pub finds : Symbol → Bool
