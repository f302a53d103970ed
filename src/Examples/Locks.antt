-- ===== src/Examples/Locks.antt =====
-- Two threads on the registry of src/mock_allocator.c: one inserts while the other waits to look up.
use libc_override.Base.{
  ℕ, ◌≤◌, ◌≡◌, refl, true, false, List, [], ◌∷◌, ◌++◌, length, none, some, arith,
}
use libc_override.Registry.{capacity, store, probe}
use libc_override.Registry.Calls.{Call, insert, lookup, Reply}
use libc_override.Registry.Refine.{Models}
use libc_override.Registry.Lock.{
  done, section, steps, inserting, looking, Entered, System, update, outside, Steps, here, later,
  start, ask, spin, acquire,
}
use libc_override.Registry.Lock.Interleaved.{
  mutual_exclusion, interleavings-serial, spinning-Ends, SerialOnMap, AllProper, calls_of, Ends,
  run-Ends, Ends-before, replay_map,
}

abbrev adds : List Call
adds = insert 32 8 1 ∷ []

abbrev looks : List Call
looks = lookup 32 ∷ []

-- a state, and how it is reached
record Run : Type 0 where
  last : System
  reach : Steps start last

-- thread 0 is inside, and has still to read its first slot; thread 1 waits
abbrev contended : Run
unfolding update
contended = record {
  last = _;
  reach =
      later
        (later (later (later here (ask 0 adds refl)) (ask 1 looks refl)) (acquire 0 adds refl refl))
        (spin 1 looks refl refl);
}

mutual_exclusion_example : ◌≡◌ {A = ℕ} 0 0
unfolding update
mutual_exclusion_example = mutual_exclusion contended.reach 0 0 tt tt

-- thread 0 makes its section
abbrev finished : Ends start contended.last 0 adds
unfolding update
finished = run-Ends (section adds done) 0 adds contended.reach refl

-- and thread 1 makes its own
abbrev found_there : Run
unfolding update run-Ends Ends-before section steps inserting looking
found_there =
    let all =
      run-Ends (section looks done) 1 looks (later finished.steps (acquire 1 looks refl refl))
        refl in
    record { last = all.last; reach = all.steps }

abbrev log : List Entered
log = (adds, (true, none) ∷ []) ∷ (looks, (true, some (8, 1)) ∷ []) ∷ []

found_there-log : found_there.last.log ≡ log
unfolding update run-Ends Ends-before section steps inserting looking store probe
found_there-log = refl

few : calls_of found_there.last.log ≤ capacity
few = rw found_there-log (omega arith)

proper : AllProper found_there.last.log
proper = rw found_there-log ((omega arith, tt), ((omega arith, tt), tt))

interleavings-serial_example :
    SerialOnMap (λ q. none) found_there.last.log
    × (found_there.last.flag ≡ false
        → Models (replay_map (λ q. none) found_there.last.log) found_there.last.table)
interleavings-serial_example = interleavings-serial found_there.reach few proper

spinning-Ends_example :
    (v : System) × (rs : List Reply) × (log : List Entered) × Steps contended.last v
    × (v.thread 1 ≡ outside)
    × (v.log ≡ (contended.last.log ++ log) ++ (looks, rs) ∷ [])
    × (length log ≤ 1)
unfolding update
spinning-Ends_example = spinning-Ends contended.reach 1 looks refl
