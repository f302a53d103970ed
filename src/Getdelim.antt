-- ===== src/Getdelim.antt =====
-- `getdelim` of src/line_overrides.c, over a stream of bytes.
pub mod Buffers
pub mod Lines
pub mod Outcomes
use libc_override.Base.{
  ℕ, ◌+◌, ◌-◌, ◌/◌, Bool, true, false, ◌||◌, List, [], ◌∷◌, Option, none, some, ltb, leb, ◌==◌,
  if◌then◌else◌, size_max, Errno, enomem,
}

-- `*s` and `*n`: the bytes of the block, and its size
pub record Buffer : Type 0 where
  pub bytes : ℕ → ℕ
  pub capacity : ℕ

-- what `realloc` answers to a size: the bytes behind those that are kept, or nothing
abbrev pub Realloc : Type 0
Realloc = ℕ → Option (ℕ → ℕ)

-- a block of the size, if `realloc` gave one
unfoldable pub resized : ℕ → Option (ℕ → ℕ) → Buffer → Option Buffer
resized size none b = none
resized size (some tail) b =
    some (record { bytes = λ i. if ltb i b.capacity then b.bytes i else tail i; capacity = size })

unfoldable pub or_else : Option Buffer → Option Buffer → Option Buffer
or_else none y = y
or_else (some b) y = some b

-- the size that is asked for first
unfoldable pub roomy : ℕ → ℕ
roomy min_capacity =
    if ltb min_capacity (size_max / 4) then min_capacity + min_capacity / 2 else min_capacity

-- `none` is the C result -1, with ENOMEM; the block is as it was
unfoldable pub grow_line_buffer : Realloc → ℕ → Buffer → Option Buffer
grow_line_buffer realloc length b =
    if ltb (size_max - 2) length
    then none
    else or_else (resized (roomy (length + 2)) (realloc (roomy (length + 2))) b)
        (resized (length + 2) (realloc (length + 2)) b)

-- the test in front of each character
unfoldable pub make_room : Realloc → ℕ → Buffer → Option Buffer
make_room realloc length b =
    if leb b.capacity (length + 1) then grow_line_buffer realloc length b else some b

unfoldable pub set_byte : ℕ → ℕ → Buffer → Buffer
set_byte at c b = record b { bytes = λ i. if i == at then c else b.bytes i }

-- A line of the length, with the bytes that are left of the input; `-1`, with `errno` where the
-- function sets it, and what is in `*s` and `*n` then; or `-1` with EINVAL, for a null pointer.
pub data Outcome : Type 0 where
  line : (length : ℕ) → Buffer → (rest : List ℕ) → Outcome
  failed : Option Errno → Buffer → (rest : List ℕ) → Outcome
  refused : Outcome

-- the end of the input, where `error` is what `ferror` says, once there is room; `b` is the old buffer
unfoldable pub at_end : (error : Bool) → ℕ → (b : Buffer) → Option Buffer → Outcome
at_end error length b none = failed (some enomem) b []
at_end error length b (some d) =
    if (length == 0) || error then failed none d [] else line length (set_byte length 0 d) []

-- a character in front of `cs`, once there is room; `next` is the rest of the loop
unfoldable pub at_char :
    (delim c : ℕ) → List ℕ → ℕ → (Buffer → Outcome) → (b : Buffer) → Option Buffer → Outcome
at_char delim c cs length next b none = failed (some enomem) b (c ∷ cs)
at_char delim c cs length next b (some d) =
    if c == delim
    then line (length + 1) (set_byte (length + 1) 0 (set_byte length c d)) cs
    else next (set_byte length c d)

-- the loop
unfoldable pub read_from : Realloc → (error : Bool) → (delim : ℕ) → List ℕ → ℕ → Buffer → Outcome
read_from realloc error delim [] length b = at_end error length b (make_room realloc length b)
read_from realloc error delim (c ∷ cs) length b =
    at_char delim c cs length (read_from realloc error delim cs (length + 1)) b
      (make_room realloc length b)

-- what `s` points at: nothing for a null `s`, `some none` for a null `*s`
abbrev pub Lineptr : Type 0
Lineptr = Option (Option (ℕ → ℕ))

-- `s` and `n` at the start: `*n` is set to 0 where `*s` is null, whose bytes nobody reads then
unfoldable pub buffer_of : Lineptr → (n : Option ℕ) → Option Buffer
buffer_of none n = none
buffer_of (some bytes) none = none
buffer_of (some none) (some n) = some (record { bytes = λ i. 0; capacity = 0 })
buffer_of (some (some bytes)) (some n) = some (record { bytes = bytes; capacity = n })

unfoldable pub getdelim :
    Realloc → (error : Bool) → (delim : ℕ) → List ℕ → (s : Lineptr) → (n : Option ℕ) → Outcome
unfolding buffer_of
getdelim realloc error delim input s n = elim (buffer_of s n) [
  | none ↦ refused
  | some b ↦ read_from realloc error delim input 0 b
]

-- `__getdelim`
pub gnu_getdelim :
    Realloc → (error : Bool) → (delim : ℕ) → List ℕ → (s : Lineptr) → (n : Option ℕ) → Outcome
gnu_getdelim = getdelim

-- `getline`, with the line feed
unfoldable pub getline :
    Realloc → (error : Bool) → List ℕ → (s : Lineptr) → (n : Option ℕ) → Outcome
getline realloc error input s n = getdelim realloc error 10 input s n
