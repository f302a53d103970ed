-- ===== src/Memstream/Sequence/Simulates.antt =====
-- The operations of a memory stream of src/memstream_overrides.c against those of a file.
use libc_override.Base.{
  ℕ, ◌+◌, ◌-◌, ◌≤◌, ◌≡◌, refl, sym, ap, ap₂, fun_ext, ◌∙◌, Bool, true, false, List, [], ◌∷◌, length,
  Option, none, some, arith, inl, inr, if◌then◌else◌, ltb, leb, Bool-cases, add_word, sub_word,
  size_max,
}
use libc_override.Memstream.{
  Cookie, Realloc, ssize_max, new_space, enlarge, grow, overlay, put, wrote, write, Offset, ahead,
  back, Whence, set, cur, end, seek_from, target_of, moved_to,
}
use libc_override.Memstream.Write.{file, Writes, write_lem, overlay-outside}
use libc_override.Memstream.Sequence.{
  File, Op, writes, seeks, Answer, position, written, Lands, Goes, Does, took, no_memory, moved,
  refused, Runs, stops, and_then, Holds, Modest, Sane, more_writes, more_seeks, apply, apply_all,
}

enlarge-space :
    (c : Cookie) (size : ℕ) (x : Option (ℕ × (ℕ → ℕ)))
    → c.space ≤ ssize_max
    → ((at : ℕ) (tail : ℕ → ℕ) → x ≡ some (at, tail) → size ≤ ssize_max)
    → (enlarge size x c).1.space ≤ ssize_max
unfolding enlarge
enlarge-space c size none small modest = small
enlarge-space c size (some (at, tail)) small modest = modest at tail refl

grow-space :
    (realloc : Realloc) (n : ℕ) (c : Cookie)
    → Modest realloc
    → c.space ≤ ssize_max
    → (grow realloc n c).1.space ≤ ssize_max
unfolding grow
grow-space realloc n c modest small =
    let required = add_word (add_word c.pos n) 1 in
    let size = new_space c.space required in
    elim (Bool-cases (ltb (sub_word (sub_word size_max n) 1) c.pos)) [
      | inl e ↦ rw e small
      | inr e ↦ rw e (elim (Bool-cases (leb required c.space)) [
        | inl e' ↦ rw e' small
        | inr e' ↦ rw e' (enlarge-space c size (realloc size) small (modest size))
      ])
    ]

wrote-space :
    (text : List ℕ) (r : Bool × Cookie) → r.1.space ≤ ssize_max → (wrote text r).1.space ≤ ssize_max
unfolding wrote put
wrote-space text (true, c) h = h
wrote-space text (false, c) h = h

write-space :
    (realloc : Realloc) (text : List ℕ) (c : Cookie)
    → Modest realloc
    → c.space ≤ ssize_max
    → (write realloc text c).1.space ≤ ssize_max
unfolding write
write-space realloc text c modest small =
    wrote-space text (grow realloc (length text) c)
      (grow-space realloc (length text) c modest small)

position_or : ℕ → Option ℕ → ℕ
position_or p none = p
position_or p (some q) = q

-- a seek from a position goes where its offset leads, and refuses what an `off_t` cannot hold
abbrev Exact : ℕ → Offset → Option ℕ → Type 0
Exact base offset x =
    ((p : ℕ) → x ≡ some p → Lands base offset p × (p ≤ ssize_max))
    × (x ≡ none → (p : ℕ) → ¬ Lands base offset p)

seek_from-Lands :
    (base : ℕ) (offset : Offset) → base ≤ ssize_max → Exact base offset (seek_from base offset)
unfolding seek_from position_or
seek_from-Lands base (ahead n) small = elim (Bool-cases (ltb (ssize_max - base) n)) [
  | inl e ↦
      rw e
        (λ p is. absurd (ground (arith, is)), λ _ p (there, fits). ground (arith, e, there, fits))
  | inr e ↦ rw e (
    λ p is.
        let same = ap (position_or 0) is in
        let fits : p ≤ ssize_max = ground (arith, e, same) in ((sym same, fits), fits),
    λ is. absurd (ground (arith, is)),
  )
]
seek_from-Lands base (back n) small = elim (Bool-cases (leb base n)) [
  | inl e ↦
      rw e (λ p is. absurd (ground (arith, is)), λ _ p (there, fits). ground (arith, e, there))
  | inr e ↦ rw e (
    λ p is.
        let same = ap (position_or 0) is in
        let fits : p ≤ ssize_max = omega (arith, same) in
        let there : p + n + 1 ≡ base = ground (arith, e, same) in ((there, fits), fits),
    λ is. absurd (ground (arith, is)),
  )
]

seek_from-at :
    (base base' : ℕ) (offset : Offset)
    → base ≡ base'
    → base ≤ ssize_max
    → Exact base' offset (seek_from base offset)
seek_from-at base base' offset same small = rw (sym same) (seek_from-Lands base offset small)

-- the file after an operation
abbrev Simulates : File → Op → Answer × Cookie → Type 0
Simulates f op r = (g : File) × Does f op (r.0) g × Holds (r.1) g

module _ (c : Cookie) (f : File) (h : Holds c f) where
  bytes-written :
      (text : List ℕ) (r : ℕ × Cookie)
      → Writes c text r
      → (i : ℕ) → file (r.1) i ≡ overlay f.pos text f.bytes i
  bytes-written text r w i =
      let same : overlay c.pos text (file c) i ≡ overlay f.pos text f.bytes i =
        ap₂ (λ p m. overlay p text m i) h.pos (fun_ext h.bytes) in
      elim (Bool-cases (ltb i r.1.len)) [
        | inl e ↦ rw e (w.contents i (ground (arith, e)) ∙ same)
        | inr e ↦
            let away : f.pos + length text ≤ i = ground (arith, e, w.len, h.pos) in
            let gap : file c i ≡ 0 = ground (arith, e, w.len) in
            rw e (sym (overlay-outside text f.pos f.bytes i (inr away) ∙ sym (h.bytes i) ∙ gap))
      ]

  written-Holds :
      (text : List ℕ) (r : ℕ × Cookie)
      → Writes c text r
      → r.1.space ≤ ssize_max
      → Holds (r.1) (written text f)
  written-Holds text r w space = record {
    stream = w.stream;
    bytes = bytes-written text r w;
    len = w.len ∙ ap₂ (λ n p. if leb n (p + length text) then p + length text else n) h.len h.pos;
    pos = w.pos ∙ ap (λ p. p + length text) h.pos;
    space = space;
    short = ground (arith, w.pos, w.len, w.ends, space);
  }

  write-Simulates :
      (realloc : Realloc) (text : List ℕ)
      → Modest realloc
      → length text ≤ ssize_max
      → Simulates f (writes realloc text) (apply (writes realloc text) c)
  unfolding apply
  write-Simulates realloc text modest short =
      elim (write_lem realloc c h.stream text (omega (arith, short, h.short))) [
        | inl w ↦ (
          written text f,
          rw w.count took,
          written-Holds text (write realloc text c) w (write-space realloc text c modest h.space),
        )
        | inr e ↦ rw e (
          f,
          no_memory,
          record {
            stream = record {
              zeros = h.stream.zeros;
              room = h.stream.room;
              current = h.stream.current;
            };
            bytes = h.bytes;
            len = h.len;
            pos = h.pos;
            space = h.space;
            short = h.short;
          },
        )
      ]

  moved-Simulates :
      (offset : Offset) (whence : Whence) (x : Option ℕ)
      → ((p : ℕ) → x ≡ some p → Goes offset whence f p × (p ≤ ssize_max))
      → (x ≡ none → (p : ℕ) → ¬ Goes offset whence f p)
      → let r = moved_to x c in Simulates f (seeks offset whence) (position (r.0), r.1)
  unfolding moved_to
  moved-Simulates offset whence none goes stays = (
    f,
    refused (stays refl),
    record {
      stream = record { zeros = h.stream.zeros; room = h.stream.room; current = h.stream.current };
      bytes = h.bytes;
      len = h.len;
      pos = h.pos;
      space = h.space;
      short = h.short;
    },
  )
  moved-Simulates offset whence (some p) goes stays = (
    record f { pos = p },
    moved (goes p refl).0,
    record {
      stream = record { zeros = h.stream.zeros; room = h.stream.room; current = h.stream.current };
      bytes = h.bytes;
      len = h.len;
      pos = refl;
      space = h.space;
      short = (goes p refl).1;
    },
  )

  seek-Simulates :
      (offset : Offset) (whence : Whence)
      → Simulates f (seeks offset whence) (apply (seeks offset whence) c)
  unfolding apply target_of
  seek-Simulates offset set =
      let exact = seek_from-Lands 0 offset (omega arith) in
      moved-Simulates offset set (seek_from 0 offset) (exact.0) (exact.1)
  seek-Simulates offset cur =
      let exact = seek_from-at c.pos f.pos offset h.pos h.short in
      moved-Simulates offset cur (seek_from c.pos offset) (exact.0) (exact.1)
  seek-Simulates offset end =
      let exact = seek_from-at c.len f.len offset h.len (omega (arith, h.stream.room, h.space)) in
      moved-Simulates offset end (seek_from c.len offset) (exact.0) (exact.1)
  seek-Simulates offset Whence.other =
      moved-Simulates offset Whence.other none (λ p e. absurd (ground (arith, e))) (λ _ p no. no)

-- Any sequence of writes and seeks on a memory stream does to it what it does to a file, with the same
-- answers: a write puts its text at the position and counts it, or finds no memory and changes nothing; a
-- seek goes to its base plus its offset, and refuses just those before the start or above the largest
-- `off_t`. Gaps read as zeros.
pub apply_all-Runs :
    (ops : List Op) (c : Cookie) (f : File)
    → Holds c f
    → Sane ops
    → (g : File) × Runs f ops (apply_all ops c).0 g × Holds (apply_all ops c).1 g
unfolding apply_all
apply_all-Runs [] c f h sane = (f, stops, h)
apply_all-Runs (writes realloc text ∷ ops) c f h (more_writes modest short sane) =
    let (g, does, holds) = write-Simulates c f h realloc text modest short in
    let (last, runs, held) = apply_all-Runs ops _ g holds sane in (last, and_then does runs, held)
apply_all-Runs (seeks offset whence ∷ ops) c f h (more_seeks sane) =
    let (g, does, holds) = seek-Simulates c f h offset whence in
    let (last, runs, held) = apply_all-Runs ops _ g holds sane in (last, and_then does runs, held)
