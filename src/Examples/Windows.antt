-- ===== src/Examples/Windows.antt =====
-- The theorems on the counters, at one window of a test.
use libc_override.Base.{◌+◌, ◌≡◌, refl, false, arith, List, [], ◌∷◌, ltb}
use libc_override.Stats.Capture.{
  Event, fresh, window, traffic, apply_all, times, window-traffic, captures_nest,
}
use libc_override.Stats.{begin_capture, end_capture, capture_enabled}

abbrev before : List Event
before = Event.added 24 ∷ Event.succeeded 0 24 ∷ []

abbrev inside : List Event
inside = Event.reallocated false ∷ Event.updated 24 40 ∷ []

abbrev behind : List Event
behind = Event.freed false ∷ Event.removed 40 ∷ []

window-traffic_example :
    traffic (window before inside behind fresh) ≡ traffic (apply_all inside (begin_capture fresh))
window-traffic_example = window-traffic before inside behind fresh refl

captures_nest_example :
    (capture_enabled (times 2 begin_capture fresh) ≡ ltb 0 2)
    × (times (1 + 2) end_capture (times 2 begin_capture fresh) ≡ fresh)
captures_nest_example = captures_nest 2 1 fresh refl (omega arith)
