-- ===== src/Memstream/Sequence.antt =====
-- Whole sequences of writes and seeks on a memory stream of src/memstream_overrides.c, against a file.
pub mod Simulates
use libc_override.Base.{
  ℕ, ◌+◌, ◌-◌, ◌≤◌, ◌<◌, ◌^◌, ◌≡◌, refl, sym, ap, ap₂, fun_ext, ◌∙◌, Bool, true, false, List, [],
  ◌∷◌, length, Option, none, some, arith, inl, inr, ◌⊎◌, if◌then◌else◌, ltb, leb, Bool-cases,
  Option-cases, enomem, einval, add_word, sub_word, size_max,
}
use libc_override.Memstream.{
  Cookie, Realloc, ssize_max, new_space, enlarge, grow, overlay, put, wrote, write, Offset, ahead,
  back, Whence, set, cur, end, seek_from, target_of, moved_to, seek,
}
use libc_override.Memstream.Write.{IsStream, file, Writes, write_lem, overlay-outside}

-- a file with a position, whose bytes behind its length are zeros
pub record File : Type 0 where
  pub bytes : ℕ → ℕ
  pub len : ℕ
  pub pos : ℕ

-- A write comes with what `realloc` would answer to it.
pub data Op : Type 0 where
  writes : Realloc → List ℕ → Op
  seeks : Offset → Whence → Op

pub data Answer : Type 0 where
  count : ℕ → Answer
  position : Option ℕ → Answer

abbrev pub written : List ℕ → File → File
written text f = record {
  bytes = overlay f.pos text f.bytes;
  len = if leb f.len (f.pos + length text) then f.pos + length text else f.len;
  pos = f.pos + length text;
}

-- The position `p` is the offset behind the base, or before it, and an `off_t` can hold it.
abbrev pub Lands : ℕ → Offset → ℕ → Type 0
Lands base (ahead n) p = (p ≡ base + n) × (p ≤ ssize_max)
Lands base (back n) p = (p + n + 1 ≡ base) × (p ≤ ssize_max)

-- where a seek of a file leads
abbrev pub Goes : Offset → Whence → File → ℕ → Type 0
Goes offset set f p = Lands 0 offset p
Goes offset cur f p = Lands f.pos offset p
Goes offset end f p = Lands f.len offset p
Goes offset Whence.other f p = ⊥

-- what a file may do: a write may fail for want of memory, and then nothing has changed
pub data Does (f : File) : Op → Answer → File → Type 0 where
  took :
      {realloc : Realloc} {text : List ℕ}
      → Does f (writes realloc text) (count (length text)) (written text f)
  no_memory : {realloc : Realloc} {text : List ℕ} → Does f (writes realloc text) (count 0) f
  moved :
      {offset : Offset} {whence : Whence} {p : ℕ}
      → Goes offset whence f p
      → Does f (seeks offset whence) (position (some p)) (record f { pos = p })
  refused :
      {offset : Offset} {whence : Whence}
      → ((p : ℕ) → ¬ Goes offset whence f p)
      → Does f (seeks offset whence) (position none) f

-- and what it does one after the other
pub data Runs : File → List Op → List Answer → File → Type 0 where
  stops : {f : File} → Runs f [] [] f
  and_then :
      {f g h : File} {op : Op} {answer : Answer} {ops : List Op} {answers : List Answer}
      → Does f op answer g
      → Runs g ops answers h
      → Runs f (op ∷ ops) (answer ∷ answers) h

-- The stream holds the file, within the sizes that an object can have.
pub record Holds (c : Cookie) (f : File) : Type 0 where
  pub stream : IsStream c
  pub bytes : (i : ℕ) → file c i ≡ f.bytes i
  pub len : c.len ≡ f.len
  pub pos : c.pos ≡ f.pos
  pub space : c.space ≤ ssize_max
  pub short : c.pos ≤ ssize_max

-- `realloc` gives no block that is larger than an object can be
abbrev pub Modest : Realloc → Type 0
Modest realloc = (size at : ℕ) (tail : ℕ → ℕ) → realloc size ≡ some (at, tail) → size ≤ ssize_max

pub data Sane : List Op → Type 0 where
  nothing : Sane []
  more_writes :
      {realloc : Realloc} {text : List ℕ} {ops : List Op}
      → Modest realloc
      → length text ≤ ssize_max
      → Sane ops
      → Sane (writes realloc text ∷ ops)
  more_seeks :
      {offset : Offset} {whence : Whence} {ops : List Op}
      → Sane ops
      → Sane (seeks offset whence ∷ ops)

unfoldable pub apply : Op → Cookie → Answer × Cookie
unfolding write seek
apply (writes realloc text) c = let r = write realloc text c in (count (r.0), r.1)
apply (seeks offset whence) c = let r = seek offset whence c in (position (r.0), r.1)

unfoldable pub apply_all : List Op → Cookie → List Answer × Cookie
unfolding apply
apply_all [] c = ([], c)
apply_all (op ∷ ops) c =
    let r = apply op c in let rest = apply_all ops (r.1) in (r.0 ∷ rest.0, rest.1)
