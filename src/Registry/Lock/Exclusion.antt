-- ===== src/Registry/Lock/Exclusion.antt =====
-- Threads that interleave on the registry of src/mock_allocator.c, one inside the lock at a time.
use libc_override.Base.{
  ℕ, ◌≡◌, ◌≢◌, refl, ◌∙◌, sym, ap, Bool-cases, inl, inr, true, false, List, [], ◌∷◌, ◌++◌, ◌==◌,
  arith,
}
use libc_override.Registry.{Registry}
use libc_override.Registry.Calls.{Call, Reply, run, left}
use libc_override.Registry.Refine.{initial}
use libc_override.Registry.Lock.{
  Program, done, load, save, section, Phase, outside, spinning, inside, Entered, System, update,
  Step, ask, spin, acquire, read, write, release, Steps, here, later, start,
}
use libc_override.Registry.Lock.Replay.{exec, exec-section}

abbrev pub IsInside : Phase → Type 0
IsInside (inside cs p) = Unit {0}
IsInside _ = ⊥

-- the sections of a log were made one after the other
abbrev pub Serial : Registry → List Entered → Type 0
Serial g [] = Unit {0}
Serial g ((cs, rs) ∷ log) = (rs ≡ run g cs) × Serial (left g cs) log

abbrev pub replay : Registry → List Entered → Registry
replay g [] = g
replay g ((cs, rs) ∷ log) = replay (left g cs) log

Serial-snoc :
    (log : List Entered) (g : Registry) (cs : List Call) (rs : List Reply)
    → Serial g log
    → rs ≡ run (replay g log) cs
    → Serial g (log ++ (cs, rs) ∷ [])
Serial-snoc [] g cs rs h e = (e, tt)
Serial-snoc ((ds, qs) ∷ log) g cs rs (h, hs) e = (h, Serial-snoc log (left g ds) cs rs hs e)

replay-snoc :
    (log : List Entered) (g : Registry) (cs : List Call) (rs : List Reply)
    → replay g (log ++ (cs, rs) ∷ []) ≡ left (replay g log) cs
replay-snoc [] g cs rs = refl
replay-snoc ((ds, qs) ∷ log) g cs rs = replay-snoc log (left g ds) cs rs

-- the lock is free, or one thread is inside, and what is left of its program leads to where its calls
-- lead from the table that it found
pub data Owned (s : System) : Type 0 where
  free :
      s.flag ≡ false
      → ((t : ℕ) → ¬ IsInside (s.thread t))
      → s.table ≡ replay initial s.log
      → Owned s
  held :
      (t : ℕ) (cs : List Call) (p : Program)
      → s.flag ≡ true
      → s.thread t ≡ inside cs p
      → ((u : ℕ) → u ≢ t → ¬ IsInside (s.thread u))
      → exec p s.table ≡ (run (replay initial s.log) cs, left (replay initial s.log) cs)
      → Owned s

pub record Inv (s : System) : Type 0 where
  pub owned : Owned s
  pub serial : Serial initial s.log

pub update_self : (f : ℕ → Phase) (t : ℕ) (p : Phase) → update f t p t ≡ p
unfolding update
update_self f t p = ground arith

pub update_ne : (f : ℕ → Phase) (t u : ℕ) (p : Phase) → u ≢ t → update f t p u ≡ f u
unfolding update
update_ne f t u p h = ground arith

-- a thread that moves and is not inside afterwards leaves no one inside whom it did not find there
not-IsInside-update :
    (f : ℕ → Phase) (t u : ℕ) (p : Phase)
    → ¬ IsInside p
    → (u ≢ t → ¬ IsInside (f u))
    → ¬ IsInside (update f t p u)
unfolding update
not-IsInside-update f t u p out h = elim (Bool-cases (t == u)) [
  | inl e ↦ rw e out
  | inr e ↦ rw e (h (ground arith))
]

abbrev expected : System → List Call → List Reply × Registry
expected s cs = (run (replay initial s.log) cs, left (replay initial s.log) cs)

-- a thread that is inside holds the lock
record Holds (s : System) (t : ℕ) (cs : List Call) (p : Program) : Type 0 where
  set : s.flag ≡ true
  others : (u : ℕ) → u ≢ t → ¬ IsInside (s.thread u)
  leads : exec p s.table ≡ expected s cs

inside_injective :
    {cs ds : List Call} {p q : Program} → inside cs p ≡ inside ds q → (cs ≡ ds) × (p ≡ q)
inside_injective h = (cc, cc)

holder :
    {s : System} (t : ℕ) (cs : List Call) (p : Program)
    → s.thread t ≡ inside cs p
    → Owned s
    → Holds s t cs p
holder t cs p e (free fl none_in same) = absurd (none_in t (rw e tt))
holder {s} t cs p e (held t' cs' p' fl at others leads) = elim (Bool-cases (t' == t)) [
  | inl h ↦
      let th : t' ≡ t = ground arith in
      let parts = inside_injective (sym at ∙ ap s.thread th ∙ e) in
      record { set = fl; others = rw (← th) others; leads = rw (← parts.0, ← parts.1) leads }
  | inr h ↦ absurd (others t (ground arith) (rw e tt))
]

Step-Owned : {s u : System} → Step s u → Owned s → Owned u
unfolding exec
Step-Owned {s} (ask t cs e) (free fl none_in same) =
    free fl (λ u. not-IsInside-update s.thread t u (spinning cs) (λ h. h) (λ _. none_in u)) same
Step-Owned {s} (ask t cs e) (held t' cs' p fl at others leads) =
    held t' cs' p fl (update_ne s.thread t t' (spinning cs) (λ h. cc) ∙ at)
      (λ u ne. not-IsInside-update s.thread t u (spinning cs) (λ h. h) (λ _. others u ne)) leads
Step-Owned (spin t cs e h) (free fl none_in same) = absurd (cc)
Step-Owned (spin t cs e h) (held t' cs' p fl at others leads) = held t' cs' p refl at others leads
Step-Owned {s} (acquire t cs e h) (free fl none_in same) =
    held t cs (section cs done) refl (update_self s.thread t (inside cs (section cs done)))
      (λ u ne. rw (update_ne s.thread t u (inside cs (section cs done)) ne) (none_in u))
      (exec-section cs done s.table ∙ rw same)
Step-Owned (acquire t cs e h) (held t' cs' p fl at others leads) = absurd (cc)
Step-Owned {s} (read t cs j k e) owned =
    let h = holder t cs (load j k) e owned in
    held t cs (k (s.table j)) h.set (update_self s.thread t (inside cs (k (s.table j))))
      (λ u ne. rw (update_ne s.thread t u (inside cs (k (s.table j))) ne) (h.others u ne)) h.leads
Step-Owned {s} (write t cs j x p e) owned =
    let h = holder t cs (save j x p) e owned in
    held t cs p h.set (update_self s.thread t (inside cs p))
      (λ u ne. rw (update_ne s.thread t u (inside cs p) ne) (h.others u ne)) h.leads
Step-Owned {s} (release t cs rs e) owned =
    let h = holder t cs (done rs) e owned in
    free refl (λ u. not-IsInside-update s.thread t u outside (λ h. h) (h.others u))
      (ap (λ (x : List Reply × Registry). x.1) h.leads ∙ sym (replay-snoc s.log initial cs rs))

Step-Serial : {s u : System} → Step s u → Owned s → Serial initial s.log → Serial initial u.log
unfolding exec
Step-Serial (ask t cs e) owned h = h
Step-Serial (spin t cs e e') owned h = h
Step-Serial (acquire t cs e e') owned h = h
Step-Serial (read t cs j k e) owned h = h
Step-Serial (write t cs j x p e) owned h = h
Step-Serial {s} (release t cs rs e) owned h =
    Serial-snoc s.log initial cs rs h
      (ap (λ (x : List Reply × Registry). x.0) (holder t cs (done rs) e owned).leads)

pub Steps-Inv : {s : System} → Steps start s → Inv s
Steps-Inv here = record { owned = free refl (λ t h. h) refl; serial = tt }
Steps-Inv (later r st) =
    let i = Steps-Inv r in
    record { owned = Step-Owned st i.owned; serial = Step-Serial st i.owned i.serial }
