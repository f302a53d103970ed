-- ===== src/Sched.antt =====
-- The size of a set of processors in src/sched_overrides.c.
use libc_override.Base.{
  ℕ, ◌+◌, ◌-◌, ◌*◌, ◌/◌, ◌%◌, ◌^◌, ◌≤◌, ◌<◌, ◌≡◌, Option, arith, add_word, mul_word,
}
use libc_override.Strings.{Malloc}

unfoldable pub cpu_alloc_size : ℕ → ℕ
cpu_alloc_size count = mul_word 8 (add_word (count / 64) ((count % 64 + 64 - 1) / 64))

unfoldable pub sched_cpualloc : Malloc → ℕ → Option ℕ
unfolding cpu_alloc_size
sched_cpualloc malloc count = malloc (cpu_alloc_size count)

-- The size is the least number of whole words that has a bit for each of the processors, for every
-- `size_t`: no product or sum wraps round.
pub cpu_alloc_size_lem :
    (count : ℕ)
    → count < 2 ^ 64
    → (cpu_alloc_size count % 8 ≡ 0)
      × (count ≤ 8 * cpu_alloc_size count)
      × (8 * cpu_alloc_size count < count + 64)
unfolding cpu_alloc_size
cpu_alloc_size_lem count small = (omega (arith, small), omega (arith, small), omega (arith, small))
