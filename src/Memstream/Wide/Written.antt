-- ===== src/Memstream/Wide/Written.antt =====
-- The writes to memory streams of wide characters in src/memstream_overrides.c against a file.
use libc_override.Base.{
  ℕ, ◌+◌, ◌-◌, ◌≤◌, ◌<◌, ◌^◌, ◌≡◌, refl, ap, ◌∙◌, Bool, true, false, List, [], ◌∷◌, length, Option,
  none, some, arith, inl, inr, ◌⊎◌, if◌then◌else◌, ltb, leb, Bool-cases, enomem, add_word, sub_word,
  mul_word,
}
use libc_override.Memstream.{Cookie, Realloc, new_space, enlarge, overlay}
use libc_override.Memstream.Write.{
  IsStream, file, Grows, enlarge-Grows, overlay-outside, new_space-ge,
}
use libc_override.Memstream.Wide.{
  WideCookie, Conversion, Convert, max_chars, eilseq, grow, put, wrote, write,
}

-- the invariant of a stream of bytes, with a buffer whose bytes can be counted
pub record IsWide (c : Cookie) : Type 0 where
  pub stream : IsStream c
  pub space : c.space ≤ max_chars
  pub pos : c.pos ≤ max_chars

overlay-congr :
    (text : List ℕ) (at m : ℕ) (f g : ℕ → ℕ)
    → ((i : ℕ) → i < m → f i ≡ g i)
    → (i : ℕ) → i < m
    → overlay at text f i ≡ overlay at text g i
unfolding overlay
overlay-congr [] at m f g h i k = h i k
overlay-congr (b ∷ bs) at m f g h i k = ground (arith, overlay-congr bs (at + 1) m f g h i k)

-- a growth that succeeded
abbrev Wider : Cookie → ℕ → Cookie → Type 0
Wider c n d = Grows c n d × (d.space ≤ max_chars)

module _ (realloc : Realloc) (c : Cookie) (ok : IsWide c) (n : ℕ) (small : n < 2 ^ 63) where
  enlarge-space :
      (size : ℕ) (x : Option (ℕ × (ℕ → ℕ)))
      → size ≤ max_chars
      → (enlarge size x c).1.space ≤ max_chars
  unfolding enlarge
  enlarge-space size none h = ok.space
  enlarge-space size (some (b, tail)) h = h

  enlarged :
      (size : ℕ) (x : Option (ℕ × (ℕ → ℕ)))
      → size ≤ max_chars
      → ((enlarge size x c).0 ≡ true) × Grows c n (enlarge size x c).1
        ⊎ ((enlarge size x c).0 ≡ false) × ((enlarge size x c).1 ≡ record c { errno = enomem })
      → ((enlarge size x c).0 ≡ true) × Wider c n (enlarge size x c).1
        ⊎ ((enlarge size x c).0 ≡ false) × ((enlarge size x c).1 ≡ record c { errno = enomem })
  enlarged size x h (inl (ok, g)) = inl (ok, (g, enlarge-space size x h))
  enlarged size x h (inr failed) = inr failed

  grow-cases :
      ((grow realloc n c).0 ≡ true) × Wider c n (grow realloc n c).1
      ⊎ ((grow realloc n c).0 ≡ false) × ((grow realloc n c).1 ≡ record c { errno = enomem })
  unfolding grow
  grow-cases =
      let required : add_word (add_word c.pos n) 1 ≡ c.pos + n + 1 = omega (arith, ok.pos, small) in
      let size = new_space c.space (c.pos + n + 1) in
      let answer = realloc (mul_word size 4) in
      rw required (elim (Bool-cases (ltb (sub_word (sub_word max_chars n) 1) c.pos)) [
        | inl e ↦ rw e (inr (refl, refl))
        | inr guard ↦ rw guard (elim (Bool-cases (leb (c.pos + n + 1) c.space)) [
          | inl e ↦ rw e (
              inl (
                refl,
                (
                  record {
                    stream = ok.stream;
                    space = ground (arith, e);
                    same_pos = refl;
                    same_len = refl;
                    same_file = λ i. refl;
                  },
                  ok.space,
                ),
              ))
          | inr more ↦ rw more (elim (Bool-cases (ltb max_chars size)) [
            | inl e ↦ rw e (inr (refl, refl))
            | inr fit ↦ rw fit (
                enlarged size answer (ground (arith, fit)) (
                  enlarge-Grows realloc c ok.stream n (omega (arith, ok.pos, small)) size answer
                    (ground (arith, more, new_space-ge c.space (c.pos + n + 1)))
                    (omega (arith, new_space-ge c.space (c.pos + n + 1)))))
          ])
        ])
      ])

-- The conversion of text without a NUL: it stores what it counts, and a character has a byte at least.
pub record Converts (text : List ℕ) (v : Conversion) : Type 0 where
  pub counted : (m : ℕ) → v.converted ≡ some m → length v.stored ≡ m
  pub few : length v.stored ≤ length text

-- The text was converted to what is stored at the position.
pub record Written (c : Cookie) (text : List ℕ) (v : Conversion) (m : ℕ) (r : ℕ × WideCookie)
    : Type 0 where
  pub count : r.0 ≡ length text
  pub wide : IsWide r.1.cookie
  pub pos : r.1.cookie.pos ≡ c.pos + m
  pub sizep : r.1.cookie.sizep ≡ c.pos + m
  pub len : r.1.cookie.len ≡ (if leb c.len (c.pos + m) then c.pos + m else c.len)
  pub state : r.1.state ≡ v.state
  pub contents :
      (i : ℕ) → i < r.1.cookie.len → r.1.cookie.bytes i ≡ overlay c.pos v.stored (file c) i

-- The text has bytes that are no character: the size and the position are as they were, but what was
-- converted before those bytes stands in the buffer.
pub record Broken (c : Cookie) (v : Conversion) (r : ℕ × WideCookie) : Type 0 where
  pub count : r.0 ≡ 0
  pub pos : r.1.cookie.pos ≡ c.pos
  pub len : r.1.cookie.len ≡ c.len
  pub errno : r.1.cookie.errno ≡ eilseq
  pub contents :
      (i : ℕ) → i < r.1.cookie.space → r.1.cookie.bytes i ≡ overlay c.pos v.stored (file c) i

module _ (realloc : Realloc) (convert : Convert) (w : WideCookie) (ok : IsWide w.cookie)
    (text : List ℕ) (small : length text < 2 ^ 63) where
  -- The conversion may store just up to the end of the buffer, which is more than a character for each
  -- byte.
  abbrev pub Fits : ℕ → ℕ × WideCookie → Type 0
  Fits room r = (w.cookie.pos + room ≡ r.1.cookie.space) × (length text < room)

  -- One of the three ends of a write.
  abbrev pub Ends : ℕ × WideCookie → Type 0
  Ends r =
      ((room : ℕ) × (m : ℕ) × Fits room r
        × ((convert w.state text room).converted ≡ some m)
        × Written w.cookie text (convert w.state text room) m r)
      ⊎ ((room : ℕ) × Fits room r
          × ((convert w.state text room).converted ≡ none)
          × Broken w.cookie (convert w.state text room) r)
      ⊎ (r ≡ (0, record w { cookie = record (w.cookie) { errno = enomem } }))

  -- a buffer that was enlarged has the bytes of the file, and zeros behind them
  unwritten :
      (d : Cookie)
      → Wider w.cookie (length text) d
      → (i : ℕ) → i < d.space
      → d.bytes i ≡ file w.cookie i
  unwritten d (g, space) i h = ground (arith, g.same_file i, g.stream.zeros i)

  stored-file :
      (d : Cookie) (stored : List ℕ)
      → Wider w.cookie (length text) d
      → (i : ℕ) → i < d.space
      → overlay d.pos stored d.bytes i ≡ overlay w.cookie.pos stored (file w.cookie) i
  stored-file d stored (g, space) i h = rw (g.same_pos) (
      overlay-congr stored w.cookie.pos d.space d.bytes (file w.cookie) (unwritten d (g, space)) i
        h)

  put-Written :
      (d : Cookie) (v : Conversion) (m : ℕ)
      → Wider w.cookie (length text) d
      → Converts text v
      → v.converted ≡ some m
      → Written w.cookie text v m (put (length text) v (some m) d)
  unfolding put
  put-Written d v m (g, space) converts is =
      let size : length v.stored ≡ m = converts.counted m is in
      let few : m ≤ length text = omega (arith, size, converts.few) in
      let pos : add_word d.pos m ≡ w.cookie.pos + m =
        omega (arith, g.same_pos, ok.pos, few, small) in
      rw pos (record {
        count = refl;
        wide = record {
          stream = record {
            zeros = λ i h k.
                overlay-outside v.stored d.pos d.bytes i
                  (ground (arith, size, g.same_pos, g.same_len))
                ∙ g.stream.zeros i (ground arith) k;
            room = inl (ground (arith, few, g.same_pos, g.same_len, g.space, g.stream.room));
            current = g.stream.current;
          };
          space = space;
          pos = omega (arith, g.space, space, few);
        };
        pos = refl;
        sizep = refl;
        len = rw (g.same_len) refl;
        state = refl;
        contents = λ i h.
            stored-file d v.stored (g, space) i
              (ground (arith, few, g.same_pos, g.same_len, g.space, g.stream.room));
      })

  put-Broken :
      (d : Cookie) (v : Conversion)
      → Wider w.cookie (length text) d
      → Broken w.cookie v (put (length text) v none d)
  unfolding put
  put-Broken d v (g, space) = record {
    count = refl;
    pos = g.same_pos;
    len = g.same_len;
    errno = refl;
    contents = stored-file d v.stored (g, space);
  }

  converted-Ends :
      (room : ℕ) (d : Cookie) (x : Option ℕ)
      → Wider w.cookie (length text) d
      → Converts text (convert w.state text room)
      → (d.pos + room ≡ d.space) × (length text < room)
      → (convert w.state text room).converted ≡ x
      → Ends (put (length text) (convert w.state text room) x d)
  unfolding put
  converted-Ends room d none g converts (ends, some_more) is = inr (
      inl (
        room,
        (rw (← g.0.same_pos) ends, some_more),
        is,
        put-Broken d (convert w.state text room) g,
      ))
  converted-Ends room d (some m) g converts (ends, some_more) is = inl (
    room,
    m,
    (rw (← g.0.same_pos) ends, some_more),
    is,
    put-Written d (convert w.state text room) m g converts is,
  )

  wrote-Ends :
      (r : Bool × Cookie)
      → ((room : ℕ) → Converts text (convert w.state text room))
      → (r.0 ≡ true) × Wider w.cookie (length text) r.1
        ⊎ (r.0 ≡ false) × (r.1 ≡ record (w.cookie) { errno = enomem })
      → Ends (wrote convert text w.state r)
  unfolding wrote
  wrote-Ends (true, d) converts (inl (_, g)) =
      let room = sub_word d.space d.pos in
      let rest : room ≡ d.space - d.pos =
        omega (arith, g.0.space, g.0.same_pos, g.1, ok.pos, small) in
      converted-Ends room d _ g (converts room)
        (omega (arith, rest, g.0.space, g.0.same_pos), omega (arith, rest, g.0.space, g.0.same_pos))
        refl
  wrote-Ends (true, d) converts (inr (e, _)) = cc
  wrote-Ends (false, d) converts (inl (e, _)) = cc
  wrote-Ends (false, d) converts (inr (_, e)) =
      inr (inr (ap (λ x. (0, record { cookie = x; state = w.state })) e))

  -- A write of bytes without a NUL to a stream of wide characters ends in one of three ways. The bytes
  -- are converted, with the rest of the buffer as the room for it, which is more than a character for
  -- each byte: the characters stand at the position of the file, gaps are zeros, the invariant is
  -- kept, and the number of the bytes is returned. Or the bytes are no characters: 0 is returned and the
  -- position and the size are as before, but the characters before the wrong bytes are in the buffer. Or
  -- there is no memory: 0, ENOMEM and the stream as it was.
  pub wide_write_lem :
      ((room : ℕ) → Converts text (convert w.state text room)) → Ends (write realloc convert text w)
  unfolding write
  wide_write_lem converts =
      wrote-Ends (grow realloc (length text) w.cookie) converts
        (grow-cases realloc w.cookie ok (length text) small)
