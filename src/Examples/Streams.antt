-- ===== src/Examples/Streams.antt =====
-- The theorems on memory streams, at a write of two bytes behind a gap.
use libc_override.Base.{
  ℕ, ◌≡◌, ◌⊎◌, refl, ap, Option, none, some, List, [], ◌∷◌, length, enomem, other, arith, inl, inr,
  leb, if◌then◌else◌, Bool-cases,
}
use libc_override.Memstream.Open.{Answers, IsOpened, open_memstream, open_memstream-IsOpened}
use libc_override.Memstream.Wide
use libc_override.Memstream.Wide.{WideCookie, Convert}
use libc_override.Memstream.Wide.Written.{IsWide, Converts, Ends, wide_write_lem}
use libc_override.Memstream.Write.{IsStream, Writes, write_lem}
use libc_override.Memstream.{Cookie, Realloc, write, open_cookie, ahead, back, set, end}
use libc_override.Memstream.Sequence.{
  File, Op, writes, seeks, Runs, Holds, Modest, nothing, more_writes, more_seeks, apply_all,
}
use libc_override.Memstream.Sequence.Simulates.{apply_all-Runs}

abbrev realloc : Realloc
realloc n = some (8192, λ i. 7)

-- a new stream, moved on by three
abbrev moved : Cookie
moved = record {
  pos = 3;
  buf = 4096;
  bytes = λ i. 0;
  len = 0;
  space = 0;
  bufp = 4096;
  sizep = 0;
  errno = other 0;
}

moved-IsStream : IsStream moved
moved-IsStream = record { zeros = λ i h k. refl; room = inr (refl, refl); current = refl }

write_lem_example :
    Writes moved (104 ∷ 105 ∷ []) (write realloc (104 ∷ 105 ∷ []) moved)
    ⊎ (write realloc (104 ∷ 105 ∷ []) moved ≡ (0, record moved { errno = enomem }))
write_lem_example = write_lem realloc moved moved-IsStream (104 ∷ 105 ∷ []) (omega arith)

abbrev answers : Answers
answers = record { cookie = some 64; buf = some 4096; stream = none }

open_memstream-IsOpened_example :
    IsOpened answers (λ x. 0) (open_memstream answers (other 0) (λ x. 0))
open_memstream-IsOpened_example = open_memstream-IsOpened answers (other 0) (λ x. 0)

moved-IsWide : IsWide moved
moved-IsWide = record { stream = moved-IsStream; space = omega arith; pos = omega arith }

abbrev wide : WideCookie
wide = record { cookie = moved; state = 0 }

-- each byte is a character
abbrev latin : Convert
latin state text room = record { converted = some (length text); stored = text; state = 0 }

count_of : Option ℕ → ℕ
count_of none = 0
count_of (some m) = m

latin-Converts : (text : List ℕ) (room : ℕ) → Converts text (latin 0 text room)
unfolding count_of
latin-Converts text room = record { counted = λ m e. ap count_of e; few = omega arith }

wide_write_lem_example :
    Ends realloc latin wide moved-IsWide
      (104 ∷ 105 ∷ [])
      (omega arith)
      (Wide.write realloc latin (104 ∷ 105 ∷ []) wide)
wide_write_lem_example =
    wide_write_lem realloc latin wide moved-IsWide (104 ∷ 105 ∷ []) (omega arith)
      (latin-Converts (104 ∷ 105 ∷ []))

-- blocks of up to a page
unfoldable paged : Realloc
paged n = if leb n 4096 then some (8192, λ i. 7) else none

paged-Modest : Modest paged
unfolding paged
paged-Modest size at tail e = elim (Bool-cases (leb size 4096)) [
  | inl fit ↦ ground (arith, fit)
  | inr over ↦ absurd (ground (arith, rw over at e))
]

abbrev fresh : Cookie
fresh = open_cookie 4096 (other 0)

abbrev blank : File
blank = record { bytes = λ i. 0; len = 0; pos = 0 }

-- a gap of three bytes, two bytes, and back to the start
abbrev script : List Op
script = seeks (ahead 3) set ∷ writes paged (104 ∷ 105 ∷ []) ∷ seeks (back 4) end ∷ []

fresh-Holds : Holds fresh blank
unfolding open_cookie
fresh-Holds = record {
  stream = record { zeros = λ i h k. refl; room = inr (refl, refl); current = refl };
  bytes = λ i. ground arith;
  len = refl;
  pos = refl;
  space = omega arith;
  short = omega arith;
}

apply_all-Runs_example :
    (g : File) × Runs blank script (apply_all script fresh).0 g × Holds (apply_all script fresh).1 g
apply_all-Runs_example =
    apply_all-Runs script fresh blank fresh-Holds
      (more_seeks (more_writes paged-Modest (omega arith) (more_seeks nothing)))
