-- ===== src/Memstream/Write.antt =====
-- A memory stream against a file: bytes up to its length, and zeros in the gaps.
use libc_override.Base.{
  ℕ, ◌+◌, ◌≤◌, ◌<◌, ◌^◌, ◌≡◌, refl, ap, sym, ◌∙◌, Bool, true, false, List, [], ◌∷◌, length, Option,
  none, some, arith, inl, inr, ◌⊎◌, if◌then◌else◌, ltb, leb, ◌&&◌, Bool-cases, size_max, enomem,
  add_word, sub_word,
}
use libc_override.Memstream.{Cookie, Realloc, new_space, enlarge, grow, overlay, put, wrote, write}

-- The invariant: behind the length the buffer holds zeros, and a position beyond the length is no
-- position of its bytes. A buffer that was written to has room for a zero behind its length.
pub record IsStream (c : Cookie) : Type 0 where
  pub zeros : (i : ℕ) → c.len ≤ i → i < c.space → c.bytes i ≡ 0
  pub room : (c.len < c.space) ⊎ (c.len ≡ 0) × (c.space ≡ 0)
  pub current : c.bufp ≡ c.buf

-- the byte of the file at `i`
abbrev pub file : Cookie → ℕ → ℕ
file c i = if ltb i c.len then c.bytes i else 0

pub overlay-outside :
    (text : List ℕ) (at : ℕ) (m : ℕ → ℕ) (i : ℕ)
    → (i < at) ⊎ (at + length text ≤ i)
    → overlay at text m i ≡ m i
unfolding overlay
overlay-outside [] at m i h = refl
overlay-outside (b ∷ bs) at m i h = ground (arith, overlay-outside bs (at + 1) m i)

overlay-inside :
    (text : List ℕ) (at : ℕ) (m m' : ℕ → ℕ) (i : ℕ)
    → at ≤ i
    → i < at + length text
    → overlay at text m i ≡ overlay at text m' i
unfolding overlay
overlay-inside [] at m m' i h k = absurd (omega arith)
overlay-inside (b ∷ bs) at m m' i h k = ground (arith, overlay-inside bs (at + 1) m m' i)

pub new_space-ge : (space required : ℕ) → required ≤ new_space space required
unfolding new_space
new_space-ge space required = ground arith

-- a growth that succeeded: room for `n` bytes at the position and a zero, and the same file
pub record Grows (c : Cookie) (n : ℕ) (d : Cookie) : Type 0 where
  pub stream : IsStream d
  pub space : c.pos + n < d.space
  pub same_pos : d.pos ≡ c.pos
  pub same_len : d.len ≡ c.len
  pub same_file : (i : ℕ) → file d i ≡ file c i

module _ (realloc : Realloc) (c : Cookie) (ok : IsStream c) (n : ℕ)
    (small : c.pos + n + 1 < 2 ^ 64) where
  -- a `realloc` that answers with `x`
  pub enlarge-Grows :
      (size : ℕ) (x : Option (ℕ × (ℕ → ℕ)))
      → c.space ≤ size
      → c.pos + n < size
      → ((enlarge size x c).0 ≡ true) × Grows c n (enlarge size x c).1
        ⊎ ((enlarge size x c).0 ≡ false) × ((enlarge size x c).1 ≡ record c { errno = enomem })
  unfolding enlarge
  enlarge-Grows size none le lt = inr (refl, refl)
  enlarge-Grows size (some (b, tail)) le lt = inl (
    refl,
    record {
      stream = record {
        zeros = λ i h k. ground (arith, ok.zeros i h);
        room = inl (omega (arith, ok.room));
        current = refl;
      };
      space = lt;
      same_pos = refl;
      same_len = refl;
      same_file = λ i. ground (arith, ok.room);
    },
  )

  grow-cases :
      ((grow realloc n c).0 ≡ true) × Grows c n (grow realloc n c).1
      ⊎ ((grow realloc n c).0 ≡ false) × ((grow realloc n c).1 ≡ record c { errno = enomem })
  unfolding grow
  grow-cases =
      let required : add_word (add_word c.pos n) 1 ≡ c.pos + n + 1 = omega arith in
      let guard : ltb (sub_word (sub_word size_max n) 1) c.pos ≡ false = ground arith in
      let size = new_space c.space (c.pos + n + 1) in
      rw (required, guard)
        (elim (Bool-cases (leb (c.pos + n + 1) c.space)) [
          | inl e ↦ rw e (
              inl (
                refl,
                record {
                  stream = ok;
                  space = ground arith;
                  same_pos = refl;
                  same_len = refl;
                  same_file = λ i. refl;
                },
              ))
          | inr e ↦ rw e (
              enlarge-Grows size (realloc size)
                (ground (arith, new_space-ge c.space (c.pos + n + 1)))
                (omega (arith, new_space-ge c.space (c.pos + n + 1))))
        ])

-- a write of `text` that succeeded
pub record Writes (c : Cookie) (text : List ℕ) (r : ℕ × Cookie) : Type 0 where
  pub count : r.0 ≡ length text
  pub stream : IsStream r.1
  pub pos : r.1.pos ≡ c.pos + length text
  pub sizep : r.1.sizep ≡ c.pos + length text
  pub len : r.1.len ≡ (if leb c.len (c.pos + length text) then c.pos + length text else c.len)
  pub contents : (i : ℕ) → i < r.1.len → r.1.bytes i ≡ overlay c.pos text (file c) i
  pub ends : (r.1.len < r.1.space) × (r.1.bytes r.1.len ≡ 0)

module _ (realloc : Realloc) (c : Cookie) (ok : IsStream c) (text : List ℕ)
    (small : c.pos + length text + 1 < 2 ^ 64) where
  -- the bytes of the enlarged buffer are those of the file
  unwritten : (d : Cookie) → Grows c (length text) d → (i : ℕ) → i < d.space → d.bytes i ≡ file c i
  unwritten d g i h = ground (arith, g.same_file i, g.stream.zeros i)

  written :
      (d : Cookie)
      → Grows c (length text) d
      → (i : ℕ) → i < d.space
      → overlay d.pos text d.bytes i ≡ overlay c.pos text (file c) i
  written d g i h = rw g.same_pos (elim (Bool-cases (leb c.pos i && ltb i (c.pos + length text))) [
    | inl e ↦ overlay-inside text c.pos d.bytes (file c) i (ground arith) (ground arith)
    | inr e ↦
        let away : (i < c.pos) ⊎ (c.pos + length text ≤ i) = ground arith in
        overlay-outside text c.pos d.bytes i away
        ∙ unwritten d g i h
        ∙ sym (overlay-outside text c.pos (file c) i away)
  ])

  wrote-Writes :
      (r : Bool × Cookie)
      → ((r.0 ≡ true) × Grows c (length text) r.1)
        ⊎ ((r.0 ≡ false) × (r.1 ≡ record c { errno = enomem }))
      → Writes c text (wrote text r) ⊎ (wrote text r ≡ (0, record c { errno = enomem }))
  unfolding wrote put
  wrote-Writes (true, d) (inl (_, g)) =
      let n = length text in
      let at : add_word d.pos n ≡ c.pos + n = omega (arith, g.same_pos) in
      rw at (
        inl (record {
          count = refl;
          stream = record {
            zeros = λ i h k.
                overlay-outside text d.pos d.bytes i
                  (ground (arith, g.same_len, g.same_pos, g.space))
                ∙ g.stream.zeros i (ground arith) k;
            room = inl (ground (arith, g.same_len, g.same_pos, g.space, g.stream.room));
            current = g.stream.current;
          };
          pos = refl;
          sizep = refl;
          len = rw (g.same_len) refl;
          contents =
              λ i h. written d g i (ground (arith, g.same_len, g.same_pos, g.space, g.stream.room));
          ends = (
            ground (arith, g.same_len, g.same_pos, g.space, g.stream.room),
            overlay-outside text d.pos d.bytes _ (ground (arith, g.same_len, g.same_pos, g.space))
                ∙ g.stream.zeros _ (ground arith)
                    (ground (arith, g.same_len, g.same_pos, g.space, g.stream.room)),
          );
        }))
  wrote-Writes (true, d) (inr (e, _)) = cc
  wrote-Writes (false, d) (inl (e, _)) = cc
  wrote-Writes (false, d) (inr (_, e)) = inr (ap (λ x. (0, x)) e)

  -- A write that succeeds is a write to a file: the text stands at the position, gaps are zeros, all else
  -- stays, and a zero stands behind the length. The caller sees the new position as the size. A write
  -- fails with 0 and ENOMEM, and then the stream is as it was. The invariant is kept.
  pub write_lem :
      Writes c text (write realloc text c)
      ⊎ (write realloc text c ≡ (0, record c { errno = enomem }))
  unfolding write
  write_lem =
      wrote-Writes (grow realloc (length text) c) (grow-cases realloc c ok (length text) small)
