-- ===== src/Stats.antt =====
-- The counters of src/mock_allocator.c, and the capture depth that switches most of them on.
-- Each counter is an atomic 64-bit word, and an update is one step.
pub mod Capture
use libc_override.Base.{
  ℕ, ◌+◌, ◌-◌, ◌%◌, ◌^◌, Bool, ◌&&◌, Option, none, some, ltb, ◌==◌, if◌then◌else◌, add_word,
  sub_word,
}

-- `ao_atomic_stats`, and `ao_mock_stats` with the same fields
pub record Stats : Type 0 where
  pub malloc_calls : ℕ
  pub calloc_calls : ℕ
  pub realloc_calls : ℕ
  pub free_calls : ℕ
  pub successful_allocations : ℕ
  pub successful_allocation_bytes : ℕ
  pub failed_allocations : ℕ
  pub bypass_realloc_calls : ℕ
  pub bypass_free_calls : ℕ
  pub live_blocks : ℕ
  pub live_bytes : ℕ

-- `g_stats` and `g_capture_depth`; the depth is an `int`, kept as its 32-bit pattern
pub record Counters : Type 0 where
  pub stats : Stats
  pub capture_depth : ℕ

-- whether the `int` of a pattern is positive
abbrev pub is_positive : ℕ → Bool
is_positive w = ltb 0 w && ltb w (2 ^ 31)

unfoldable pub capture_enabled : Counters → Bool
capture_enabled c = is_positive c.capture_depth

unfoldable pub record_failed_allocation : Counters → Counters
unfolding capture_enabled
record_failed_allocation c =
    let s = c.stats in
    if capture_enabled c
    then record c { stats = record s { failed_allocations = add_word s.failed_allocations 1 } }
    else c

-- the `switch` on the kind of call
unfoldable pub count_kind : ℕ → Stats → Stats
count_kind kind s =
    if kind == 0
    then record s { malloc_calls = add_word s.malloc_calls 1 }
    else if kind == 1
    then record s { calloc_calls = add_word s.calloc_calls 1 }
    else if kind == 2
    then record s { realloc_calls = add_word s.realloc_calls 1 }
    else s

unfoldable pub record_successful_allocation : ℕ → ℕ → Counters → Counters
unfolding capture_enabled count_kind
record_successful_allocation kind requested_size c =
    let s = count_kind kind c.stats in
    if capture_enabled c
    then record c {
      stats = record s {
        successful_allocations = add_word s.successful_allocations 1;
        successful_allocation_bytes = add_word s.successful_allocation_bytes requested_size;
      };
    }
    else c

unfoldable pub record_free : Bool → Counters → Counters
unfolding capture_enabled
record_free bypass c =
    let s = record c.stats { free_calls = add_word c.stats.free_calls 1 } in
    if capture_enabled c
    then record c {
      stats = if bypass then record s { bypass_free_calls = add_word s.bypass_free_calls 1 } else s;
    }
    else c

unfoldable pub record_realloc : Bool → Counters → Counters
unfolding capture_enabled
record_realloc bypass c =
    let s = record c.stats { realloc_calls = add_word c.stats.realloc_calls 1 } in
    if capture_enabled c
    then record c {
      stats =
          if bypass
          then record s { bypass_realloc_calls = add_word s.bypass_realloc_calls 1 }
          else s;
    }
    else c

unfoldable pub live_add : ℕ → Counters → Counters
live_add requested_size c =
    let s = c.stats in
    record c {
      stats = record s {
        live_blocks = add_word s.live_blocks 1;
        live_bytes = add_word s.live_bytes requested_size;
      };
    }

unfoldable pub live_update : ℕ → ℕ → Counters → Counters
live_update old_size new_size c =
    let s = c.stats in
    if ltb old_size new_size
    then record c { stats = record s { live_bytes = add_word s.live_bytes (new_size - old_size) } }
    else if ltb new_size old_size
    then record c { stats = record s { live_bytes = sub_word s.live_bytes (old_size - new_size) } }
    else c

unfoldable pub live_remove : ℕ → Counters → Counters
live_remove requested_size c =
    let s = c.stats in
    record c {
      stats = record s {
        live_blocks = sub_word s.live_blocks 1;
        live_bytes = sub_word s.live_bytes requested_size;
      };
    }

-- `ao_mock_reset`
unfoldable pub reset : Counters → Counters
reset c = record c {
  stats = record c.stats {
    malloc_calls = 0;
    calloc_calls = 0;
    realloc_calls = 0;
    free_calls = 0;
    successful_allocations = 0;
    successful_allocation_bytes = 0;
    failed_allocations = 0;
    bypass_realloc_calls = 0;
    bypass_free_calls = 0;
  };
}

-- `ao_mock_begin_capture`
unfoldable pub begin_capture : Counters → Counters
begin_capture c = record c { capture_depth = (c.capture_depth + 1) % 2 ^ 32 }

-- `ao_mock_end_capture`
unfoldable pub end_capture : Counters → Counters
end_capture c =
    if is_positive c.capture_depth
    then record c { capture_depth = (c.capture_depth + 2 ^ 32 - 1) % 2 ^ 32 }
    else c

-- `ao_mock_get_stats`; the pointer is null or names a place for the copy
unfoldable pub get_stats : Counters → Bool → Option Stats
get_stats c out = if out then some c.stats else none
