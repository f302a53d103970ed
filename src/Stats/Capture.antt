-- ===== src/Stats/Capture.antt =====
-- What the capture depth does to the counters of traffic.
use libc_override.Base.{
  ℕ, zero, suc, ◌-◌, ◌+◌, ◌<◌, ◌^◌, ◌≡◌, refl, sym, ltb, Bool, false, arith, ◌∙◌, List, [], ◌∷◌,
}
use libc_override.Stats.{
  Stats, Counters, capture_enabled, record_failed_allocation, record_successful_allocation,
  record_free, record_realloc, live_add, live_update, live_remove, reset, begin_capture,
  end_capture,
}

-- the events of the allocator that touch the counters
pub data Event : Type 0 where
  failed : Event
  succeeded : ℕ → ℕ → Event
  freed : Bool → Event
  reallocated : Bool → Event
  added : ℕ → Event
  updated : ℕ → ℕ → Event
  removed : ℕ → Event

pub apply : Event → Counters → Counters
apply failed c = record_failed_allocation c
apply (succeeded kind n) c = record_successful_allocation kind n c
apply (freed bypass) c = record_free bypass c
apply (reallocated bypass) c = record_realloc bypass c
apply (added n) c = live_add n c
apply (updated old_size new_size) c = live_update old_size new_size c
apply (removed n) c = live_remove n c

pub apply_all : List Event → Counters → Counters
apply_all [] c = c
apply_all (e ∷ es) c = apply_all es (apply e c)

-- the counters of calls, which `reset` clears, without those of live memory
abbrev pub traffic : Counters → Stats
traffic c = record c.stats { live_blocks = 0; live_bytes = 0 }

-- the counters of live memory
abbrev pub live : Counters → ℕ × ℕ
live c = (c.stats.live_blocks, c.stats.live_bytes)

apply-depth : (e : Event) (c : Counters) → (apply e c).capture_depth ≡ c.capture_depth
unfolding apply record_failed_allocation record_successful_allocation record_free record_realloc
    live_add live_update live_remove
apply-depth failed c = ground arith
apply-depth _ c = ground arith

-- with capture off an event leaves the traffic alone
apply-traffic_off :
    (e : Event) (c : Counters) → capture_enabled c ≡ false → traffic (apply e c) ≡ traffic c
unfolding apply record_failed_allocation record_successful_allocation record_free record_realloc
    live_add live_update live_remove
apply-traffic_off failed c off = ground arith
apply-traffic_off _ c off = ground arith

-- the traffic after an event depends on the traffic and the depth before it
apply-traffic_congr :
    (e : Event) (c d : Counters)
    → traffic c ≡ traffic d
    → c.capture_depth ≡ d.capture_depth
    → traffic (apply e c) ≡ traffic (apply e d)
unfolding apply record_failed_allocation record_successful_allocation record_free record_realloc
    live_add live_update live_remove
apply-traffic_congr failed c d t p = ground arith
apply-traffic_congr _ c d t p = ground arith

apply-live_congr :
    (e : Event) (c d : Counters) → live c ≡ live d → live (apply e c) ≡ live (apply e d)
unfolding apply record_failed_allocation record_successful_allocation record_free record_realloc
    live_add live_update live_remove
apply-live_congr failed c d p = ground arith
apply-live_congr _ c d p = ground arith

apply_all-depth :
    (es : List Event) (c : Counters) → (apply_all es c).capture_depth ≡ c.capture_depth
unfolding apply_all
apply_all-depth [] c = refl
apply_all-depth (e ∷ es) c = apply_all-depth es (apply e c) ∙ apply-depth e c

apply_all-traffic_off :
    (es : List Event) (c : Counters) → c.capture_depth ≡ 0 → traffic (apply_all es c) ≡ traffic c
unfolding apply_all capture_enabled
apply_all-traffic_off [] c off = refl
apply_all-traffic_off (e ∷ es) c off =
    apply_all-traffic_off es (apply e c) (apply-depth e c ∙ off)
    ∙ apply-traffic_off e c (ground arith)

apply_all-traffic_congr :
    (es : List Event) (c d : Counters)
    → traffic c ≡ traffic d
    → c.capture_depth ≡ d.capture_depth
    → traffic (apply_all es c) ≡ traffic (apply_all es d)
unfolding apply_all
apply_all-traffic_congr [] c d t p = t
apply_all-traffic_congr (e ∷ es) c d t p =
    apply_all-traffic_congr es (apply e c) (apply e d) (apply-traffic_congr e c d t p)
      (apply-depth e c ∙ p ∙ sym (apply-depth e d))

apply_all-live_congr :
    (es : List Event) (c d : Counters)
    → live c ≡ live d
    → live (apply_all es c) ≡ live (apply_all es d)
unfolding apply_all
apply_all-live_congr [] c d p = p
apply_all-live_congr (e ∷ es) c d p =
    apply_all-live_congr es (apply e c) (apply e d) (apply-live_congr e c d p)

-- all counters at zero and no capture, as the program starts
abbrev pub fresh : Counters
fresh = record {
  stats = record {
    malloc_calls = 0;
    calloc_calls = 0;
    realloc_calls = 0;
    free_calls = 0;
    successful_allocations = 0;
    successful_allocation_bytes = 0;
    failed_allocations = 0;
    bypass_realloc_calls = 0;
    bypass_free_calls = 0;
    live_blocks = 0;
    live_bytes = 0;
  };
  capture_depth = 0;
}

-- A test's window: a reset and a capture around `es`, with other events before and behind.
pub window : (before es behind : List Event) → Counters → Counters
window before es behind c =
    apply_all behind (end_capture (apply_all es (begin_capture (reset (apply_all before c)))))

module _ (before es behind : List Event) (c : Counters) (off : c.capture_depth ≡ 0) where
  -- Started outside of any capture, the traffic that is read behind a window is the traffic of the
  -- events in it, counted from zero.
  pub window-traffic :
      traffic (window before es behind c) ≡ traffic (apply_all es (begin_capture fresh))
  unfolding window end_capture begin_capture reset
  window-traffic =
      let start = begin_capture (reset (apply_all before c)) in
      let opened : start.capture_depth ≡ 1 = ground (arith, apply_all-depth before c) in
      let inside = apply_all-depth es start in
      apply_all-traffic_off behind (end_capture (apply_all es start)) (ground arith)
      ∙ ground arith
      ∙ apply_all-traffic_congr es start (begin_capture fresh) (ground arith) (ground arith)

-- Resets and captures never disturb the counters of live memory.
pub window-live :
    (before es behind : List Event) (c : Counters)
    → live (window before es behind c) ≡ live (apply_all behind (apply_all es (apply_all before c)))
unfolding window end_capture begin_capture reset
window-live before es behind c =
    let plain = apply_all before c in
    let start = begin_capture (reset plain) in
    apply_all-live_congr behind _ _
      (ground arith ∙ apply_all-live_congr es start plain (ground arith))

pub times : ℕ → (Counters → Counters) → Counters → Counters
times zero f c = c
times (suc n) f c = f (times n f c)

times-begin_capture :
    (n : ℕ) (c : Counters)
    → c.capture_depth ≡ 0
    → n < 2 ^ 31
    → times n begin_capture c ≡ record c { capture_depth = n }
unfolding times begin_capture
times-begin_capture zero c off small = ground arith
times-begin_capture (suc n) c off small =
    rw (times-begin_capture n c off (omega arith)) (ground arith)

times-end_capture :
    (n m : ℕ) (c : Counters)
    → c.capture_depth ≡ m
    → m < 2 ^ 31
    → times n end_capture c ≡ record c { capture_depth = m - n }
unfolding times end_capture
times-end_capture zero m c at small = ground arith
times-end_capture (suc n) m c at small = rw (times-end_capture n m c at small) (ground arith)

-- Captures nest: below 2 ^ 31 of them traffic is counted while one is open, as many ends close
-- them, and further ends change nothing.
pub captures_nest :
    (n extra : ℕ) (c : Counters)
    → c.capture_depth ≡ 0
    → n < 2 ^ 31
    → (capture_enabled (times n begin_capture c) ≡ ltb 0 n)
      × (times (extra + n) end_capture (times n begin_capture c) ≡ c)
unfolding capture_enabled
captures_nest n extra c off small = rw (times-begin_capture n c off small) (
  ground arith,
  times-end_capture (extra + n) n (record c { capture_depth = n }) refl small ∙ ground arith,
)
