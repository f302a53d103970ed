-- ===== src/Mock/Messages.antt =====
-- The messages of `ao_fatal` in src/mock_allocator.c, and how they are written.
use Prim.Native.Char.{code}
use Prim.Native.String.{String}
use libc_override.Base.{
  ℕ, zero, suc, ◌+◌, ◌≤◌, ◌≡◌, List, [], ◌∷◌, ◌++◌, length, take, drop, Option, none, some, ◌==◌,
  if◌then◌else◌,
}
use libc_override.Mock.Command.{Fatal, unresolved, exhausted, exhausted_in_realloc}

-- a C string: the bytes of a text, and the zero behind them
unfoldable pub literal : String → List ℕ
literal String.[] = 0 ∷ []
literal (String.◌∷◌ c s) = code c ∷ literal s

unfoldable pub message : Fatal → List ℕ
unfolding literal
message unresolved = literal "mock_allocator: failed to resolve real allocation symbols\n"
message exhausted = literal "mock_allocator: allocation registry exhausted\n"
message exhausted_in_realloc =
    literal "mock_allocator: allocation registry exhausted during realloc\n"

-- what `write` answers: a result that is not positive, or the number of bytes that it took
pub data Written : Type 0 where
  refused : Written
  took : ℕ → Written

-- `write`, by the number of calls so far and what it is asked to write
abbrev pub Write : Type 0
Write = ℕ → List ℕ → Written

-- the first loop, which finds the zero
unfoldable pub literal_length : List ℕ → ℕ
literal_length [] = 0
literal_length (c ∷ cs) = if c == 0 then 0 else literal_length cs + 1

-- these bytes, and what is written later
unfoldable pub put : List ℕ → Option (List ℕ) → Option (List ℕ)
put bytes none = none
put bytes (some out) = some (bytes ++ out)

-- what follows one call of `write` for `rest`, where `next` is the rest of the loop
unfoldable pub wrote : Written → (rest : List ℕ) → (List ℕ → Option (List ℕ)) → Option (List ℕ)
wrote refused rest next = some []
wrote (took n) rest next = if n == 0 then some [] else put (take n rest) (next (drop n rest))

-- the second loop, on the `len` bytes that are left: the bytes that reach the descriptor, or nothing
-- where the rounds are over
unfoldable pub write_from : ℕ → Write → (calls : ℕ) → (rest : List ℕ) → Option (List ℕ)
write_from zero write calls rest = none
write_from (suc f) write calls rest =
    let more = wrote (write calls rest) rest (write_from f write (calls + 1)) in
    if length rest == 0 then some [] else more

-- one round for each byte, and one to see that none is left
unfoldable pub write_literal : Write → List ℕ → Option (List ℕ)
write_literal write text =
    write_from (literal_length text + 1) write 0 (take (literal_length text) text)

-- `ao_fatal`: what it writes, and its exit status
unfoldable pub exit_fatal : Write → Fatal → Option (List ℕ) × ℕ
exit_fatal write e = (write_literal write (message e), 127)

-- of `write`: it takes no more than it is given, and reports an error or takes a byte
abbrev pub Bounded : Write → Type 0
Bounded write = (calls : ℕ) (rest : List ℕ) (n : ℕ) → write calls rest ≡ took n → n ≤ length rest

-- it takes a byte at every call
abbrev pub Succeeds : Write → Type 0
Succeeds write = (calls : ℕ) (rest : List ℕ) → (n : ℕ) × (write calls rest ≡ took (suc n))

-- the bytes that are written are the first of `rest`, and all of it if every call takes some
record Prefix (write : Write) (rest : List ℕ) (r : Option (List ℕ)) : Type 0 where
  pub out : List ℕ
  pub unwritten : List ℕ
  pub ends : r ≡ some out
  pub parts : rest ≡ out ++ unwritten
  pub whole : Succeeds write → unwritten ≡ []
