-- ===== src/Base/Live.antt =====
-- The blocks that are allocated, as the number of them at an address.
use Prim.Native.Nat.{ℕ, ◌+◌, ◌-◌}
use mathlib.Core.Option.{Option, none, some}
use mathlib.Core.Path.{◌≡◌}
use native.Mathlib.Omega.{arith}
use libc_override.Base.Tests.{◌==◌, if◌then◌else◌}

abbrev pub Live : Type 0
Live = ℕ → ℕ

unfoldable pub alloc : ℕ → Live → Live
alloc p live x = if x == p then live x + 1 else live x

-- `free` of a pointer that may be NULL
unfoldable pub free : Option ℕ → Live → Live
free none live x = live x
free (some p) live x = if x == p then live x - 1 else live x

-- how many blocks a pointer stands for at an address
abbrev pub at : ℕ → Option ℕ → ℕ
at x none = 0
at x (some p) = if x == p then 1 else 0

pub alloc_lem : (p : ℕ) (now : Live) (x : ℕ) → alloc p now x ≡ now x + at x (some p)
unfolding alloc
alloc_lem p now x = ground arith

-- what was allocated once more is freed
pub free_lem :
    (b : Option ℕ) (now : Live) (x before : ℕ) → now x ≡ before + at x b → free b now x ≡ before
unfolding free
free_lem none now x before h = omega (arith, h)
free_lem (some p) now x before h = ground (arith, h)
