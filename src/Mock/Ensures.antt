-- ===== src/Mock/Ensures.antt =====
-- Correctness of a command: what holds when it returns, and why it may end the process.
use libc_override.Mock.Command.{State, Run, Cmd, Fatal, done, fatal, and_then}

-- `P` holds if the run returns, and `F` if it ends the process; it does not crash
pub data Ensures {Heap A : Type 0} (F : Fatal → State Heap → Type 0) (P : A → State Heap → Type 0)
    : Run Heap A → Type 0 where
  returns : {a : A} {s : State Heap} → P a s → Ensures F P (done a s)
  exits : {e : Fatal} {s : State Heap} → F e s → Ensures F P (fatal e s)

module _ {Heap A : Type 0} {F : Fatal → State Heap → Type 0} {P : A → State Heap → Type 0} where
  pub bind :
      {B : Type 0} {Q : B → State Heap → Type 0} {r : Run Heap A} {k : A → Cmd Heap B}
      → Ensures F P r
      → ((a : A) (s : State Heap) → P a s → Ensures F Q (k a s))
      → Ensures F Q (and_then r k)
  bind (returns p) next = next _ _ p
  bind (exits f) next = exits f

  pub mono :
      {Q : A → State Heap → Type 0} {r : Run Heap A}
      → Ensures F P r
      → ((a : A) (s : State Heap) → P a s → Q a s)
      → Ensures F Q r
  mono (returns p) weaken = returns (weaken _ _ p)
  mono (exits f) weaken = exits f

  pub widen :
      {G : Fatal → State Heap → Type 0} {r : Run Heap A}
      → Ensures F P r
      → ((e : Fatal) (s : State Heap) → F e s → G e s)
      → Ensures G P r
  widen (returns p) weaken = returns p
  widen (exits f) weaken = exits (weaken _ _ f)
