-- ===== src/Registry/Lock/Interleaved.antt =====
-- What threads see of the registry of src/mock_allocator.c however they interleave, and that a thread
-- which waits for the lock can get it.
use libc_override.Base.{
  ℕ, ◌+◌, ◌≤◌, ◌≡◌, ◌≢◌, refl, ◌∙◌, sym, ap, Bool-cases, inl, inr, false, List, [], ◌∷◌, ◌++◌, ◌==◌,
  arith, length, none, append-nil,
}
use libc_override.Registry.{Registry, capacity}
use libc_override.Registry.Calls.{Call, Reply, run_map, left_map, AllKeys, run_refines}
use libc_override.Registry.Count.{total_slots, is_live, is_live-dead, total-empty}
use libc_override.Registry.Refine.{Map, Models, initial-Models}
use libc_override.Registry.Lock.{
  Program, done, load, save, section, Phase, outside, spinning, inside, Entered, System, update,
  acquire, read, write, release, Steps, here, later, start,
}
use libc_override.Registry.Lock.Exclusion.{
  IsInside, Serial, replay, free, held, Steps-Inv, update_self, update_ne,
}

-- Two threads are never inside the lock together.
pub mutual_exclusion :
    {s : System} → Steps start s → (t u : ℕ) → IsInside (s.thread t) → IsInside (s.thread u) → t ≡ u
mutual_exclusion {s} r t u in_t in_u = elim (Steps-Inv r).owned [
  | free fl none_in same ↦ absurd (none_in t in_t)
  | held v cs p fl at others leads ↦
      let owner : (w : ℕ) → IsInside (s.thread w) → w ≡ v = λ w in_w. elim (Bool-cases (w == v)) [
        | inl e ↦ ground arith
        | inr e ↦ absurd (others w (ground arith) in_w)
      ] in
      owner t in_t ∙ sym (owner u in_u)
]

-- the sections of a log answered as the map would, one after the other
abbrev pub SerialOnMap : Map → List Entered → Type 0
SerialOnMap f [] = Unit {0}
SerialOnMap f ((cs, rs) ∷ log) = (rs ≡ run_map f cs) × SerialOnMap (left_map f cs) log

abbrev pub replay_map : Map → List Entered → Map
replay_map f [] = f
replay_map f ((cs, rs) ∷ log) = replay_map (left_map f cs) log

abbrev pub calls_of : List Entered → ℕ
calls_of [] = 0
calls_of ((cs, rs) ∷ log) = length cs + calls_of log

abbrev pub AllProper : List Entered → Type 0
AllProper [] = Unit {0}
AllProper ((cs, rs) ∷ log) = AllKeys cs × AllProper log

Serial-SerialOnMap :
    (log : List Entered) {f : Map} {g : Registry}
    → Models f g
    → total_slots is_live g + calls_of log ≤ capacity
    → AllProper log
    → Serial g log
    → SerialOnMap f log × Models (replay_map f log) (replay g log)
Serial-SerialOnMap [] m room proper serial = (tt, m)
Serial-SerialOnMap ((cs, rs) ∷ log) m room (keys, proper) (e, serial) =
    let all = run_refines cs m (omega arith) keys in
    let rest = Serial-SerialOnMap log all.models (omega (arith, all.grows)) proper serial in
    ((e ∙ all.replies, rest.0), rest.1)

-- However threads interleave on the registry, step by step, every critical section that is over got
-- the replies of a map on which the sections are made whole, one after the other in the order of
-- their ends; and whenever the lock is free the table stands for the map that they leave. At most
-- `capacity` calls are made, on proper keys.
pub interleavings-serial :
    {s : System}
    → Steps start s
    → calls_of s.log ≤ capacity
    → AllProper s.log
    → SerialOnMap (λ _. none) s.log
      × (s.flag ≡ false → Models (replay_map (λ _. none) s.log) s.table)
interleavings-serial {s} r few proper =
    let i = Steps-Inv r in
    let (serial, models) =
      Serial-SerialOnMap s.log initial-Models (omega (arith, total-empty is_live is_live-dead))
        proper i.serial in
    (
      serial,
      λ clear. elim i.owned [
        | free fl none_in same ↦ rw same models
        | held t cs p fl at others leads ↦ absurd (cc)
      ],
    )

-- a run from `s`, to a state in which the lock is free, `t` is outside and its section is over
pub record Ends (s u : System) (t : ℕ) (cs : List Call) : Type 0 where
  pub last : System
  pub replies : List Reply
  pub steps : Steps s last
  pub clear : last.flag ≡ false
  pub out : last.thread t ≡ outside
  pub others : (w : ℕ) → w ≢ t → last.thread w ≡ u.thread w
  pub logged : last.log ≡ u.log ++ (cs, replies) ∷ []

-- a step of `t` before such a run
unfoldable pub Ends-before :
    {s u v : System} {t : ℕ} {cs : List Call}
    → ((w : ℕ) → w ≢ t → v.thread w ≡ u.thread w)
    → v.log ≡ u.log
    → Ends s v t cs
    → Ends s u t cs
Ends-before same log rest = record {
  last = rest.last;
  replies = rest.replies;
  steps = rest.steps;
  clear = rest.clear;
  out = rest.out;
  others = λ w ne. rest.others w ne ∙ same w ne;
  logged = rw (← log) rest.logged;
}

-- a thread that is inside makes its steps to the end
unfoldable pub run-Ends :
    (p : Program) {s u : System} (t : ℕ) (cs : List Call)
    → Steps s u
    → u.thread t ≡ inside cs p
    → Ends s u t cs
run-Ends (done rs) {s} {u} t cs r e = record {
  last = record u {
    flag = false;
    thread = update u.thread t outside;
    log = u.log ++ (cs, rs) ∷ [];
  };
  replies = rs;
  steps = later r (release t cs rs e);
  clear = refl;
  out = update_self u.thread t outside;
  others = λ w ne. update_ne u.thread t w outside ne;
  logged = refl;
}
run-Ends (load j k) {s} {u} t cs r e =
    let now : Phase = inside cs (k (u.table j)) in
    Ends-before (λ w ne. update_ne u.thread t w now ne) refl
      (run-Ends (k (u.table j)) t cs (later r (read t cs j k e)) (update_self u.thread t now))
run-Ends (save j x p) {s} {u} t cs r e =
    let now : Phase = inside cs p in
    Ends-before (λ w ne. update_ne u.thread t w now ne) refl
      (run-Ends p t cs (later r (write t cs j x p e)) (update_self u.thread t now))

-- the waiting thread takes a lock that is free, and goes on to the end
enter-Ends :
    {s u : System} (t : ℕ) (cs : List Call)
    → Steps s u
    → u.flag ≡ false
    → u.thread t ≡ spinning cs
    → (v : System) × (rs : List Reply) × Steps s v
      × (v.thread t ≡ outside)
      × (v.log ≡ u.log ++ (cs, rs) ∷ [])
enter-Ends {s} {u} t cs r clear e =
    let p = section cs done in
    let all =
      run-Ends p t cs (later r (acquire t cs e clear)) (update_self u.thread t (inside cs p)) in
    (all.last, all.replies, all.steps, all.out, all.logged)

waiting-is_not_inside : {cs ds : List Call} {p : Program} → spinning cs ≢ inside ds p
waiting-is_not_inside = λ h. cc

-- The lock is never stuck: in every reachable state a thread that waits for it has a run ahead in
-- which at most one other thread ends its section, and then the thread makes its own and is outside
-- again, with its section the last of the log.
pub spinning-Ends :
    {s : System}
    → Steps start s
    → (t : ℕ) (cs : List Call) → s.thread t ≡ spinning cs
    → (v : System) × (rs : List Reply) × (log : List Entered) × Steps s v
      × (v.thread t ≡ outside)
      × (v.log ≡ (s.log ++ log) ++ (cs, rs) ∷ [])
      × (length log ≤ 1)
spinning-Ends {s} r t cs e = elim (Steps-Inv r).owned [
  | free clear none_in same ↦
      let (v, rs, ahead, out, logged) = enter-Ends t cs here clear e in
      (v, rs, [], ahead, out, rw append-nil logged, omega arith)
  | held w ds p fl at others leads ↦
      let first = run-Ends p w ds here at in
      let waits : first.last.thread t ≡ spinning cs =
        first.others t (λ h. absurd (waiting-is_not_inside (sym e ∙ ap s.thread h ∙ at))) ∙ e in
      let (v, rs, ahead, out, logged) = enter-Ends t cs first.steps first.clear waits in
      (v, rs, (ds, first.replies) ∷ [], ahead, out, rw (← first.logged) logged, omega arith)
]
