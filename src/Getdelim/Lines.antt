-- ===== src/Getdelim/Lines.antt =====
-- What `getdelim` of src/line_overrides.c reads while memory lasts.
use libc_override.Base.{
  ℕ, ◌+◌, ◌≤◌, ◌<◌, ◌^◌, ◌≡◌, ◌≢◌, refl, ap, ◌∙◌, Bool, true, false, ◌||◌, List, [], ◌∷◌, ◌++◌,
  length, Option, none, some, arith, ◌⊎◌, inl, inr, ◌==◌, is_some,
}
use libc_override.Getdelim.{
  Buffer, Realloc, line, failed, set_byte, at_char, at_end, read_from, getdelim, Lineptr, buffer_of,
}
use libc_override.Getdelim.Buffers.{
  AllOther, IsLine, make_room-Roomy, IsLine-cons, IsLine-nil, IsLine-last, set-room,
}

module _ (realloc : Realloc) (gives : (n : ℕ) → is_some (realloc n) ≡ true) (error : Bool)
    (delim : ℕ) where
  read_from-line :
      (text rest : List ℕ) (n : ℕ) (b : Buffer)
      → AllOther delim text
      → n ≤ b.capacity
      → n + length text + 3 < 2 ^ 64
      → (d : Buffer) × (read_from realloc error delim (text ++ (delim ∷ rest)) n b
          ≡ line (n + length text + 1) d rest)
        × IsLine n b (text ++ (delim ∷ [])) d
  unfolding read_from at_char at_end
  read_from-line [] rest n b all le small =
      let (d, is, r) = make_room-Roomy realloc gives n b (omega arith) le in
      let self : (delim == delim) ≡ true = ground arith in
      (
        set_byte (n + 1) 0 (set_byte n delim d),
        rw (is, at_char, self)
            (ap (λ k. line k (set_byte (n + 1) 0 (set_byte n delim d)) rest) (omega arith)),
        IsLine-last n delim b d r,
      )
  read_from-line (c ∷ cs) rest n b (ne, all) le small =
      let (d, is, r) = make_room-Roomy realloc gives n b (omega arith) le in
      let other : (c == delim) ≡ false = ground (arith, ne) in
      let (e, reads, l) =
        read_from-line cs rest (n + 1) (set_byte n c d) all (set-room n c b d r) (omega arith) in
      (
        e,
        rw (is, at_char, other) (reads ∙ ap (λ k. line k e rest) (omega arith)),
        IsLine-cons n c b d e (cs ++ (delim ∷ [])) r l,
      )

  read_from-end :
      (text : List ℕ) (n : ℕ) (b : Buffer)
      → AllOther delim text
      → n ≤ b.capacity
      → n + length text + 3 < 2 ^ 64
      → n + length text ≢ 0
      → error ≡ false
      → (d : Buffer) × (read_from realloc error delim text n b ≡ line (n + length text) d [])
        × IsLine n b text d
  unfolding read_from at_char at_end
  read_from-end [] n b all le small some_text fine =
      let (d, is, r) = make_room-Roomy realloc gives n b (omega arith) le in
      let more : ((n == 0) || error) ≡ false = ground (arith, some_text) in
      (
        set_byte n 0 d,
        rw (is, at_end, more) (ap (λ k. line k (set_byte n 0 d) []) (omega arith)),
        IsLine-nil n b d r,
      )
  read_from-end (c ∷ cs) n b (ne, all) le small some_text fine =
      let (d, is, r) = make_room-Roomy realloc gives n b (omega arith) le in
      let other : (c == delim) ≡ false = ground (arith, ne) in
      let (e, reads, l) =
        read_from-end cs (n + 1) (set_byte n c d) all (set-room n c b d r) (omega arith)
          (λ z. omega (arith, z)) fine in
      (
        e,
        rw (is, at_char, other) (reads ∙ ap (λ k. line k e []) (omega arith)),
        IsLine-cons n c b d e cs r l,
      )

  read_from-failed :
      (text : List ℕ) (n : ℕ) (b : Buffer)
      → AllOther delim text
      → n ≤ b.capacity
      → n + length text + 3 < 2 ^ 64
      → (n + length text ≡ 0) ⊎ (error ≡ true)
      → (d : Buffer) × (read_from realloc error delim text n b ≡ failed none d [])
  unfolding read_from at_char at_end
  read_from-failed [] n b all le small why =
      let (d, is, r) = make_room-Roomy realloc gives n b (omega arith) le in
      let nothing : ((n == 0) || error) ≡ true = ground arith in (d, rw (is, at_end, nothing) refl)
  read_from-failed (c ∷ cs) n b (ne, all) le small why =
      let (d, is, r) = make_room-Roomy realloc gives n b (omega arith) le in
      let other : (c == delim) ≡ false = ground (arith, ne) in
      let (e, fails) =
        read_from-failed cs (n + 1) (set_byte n c d) all (set-room n c b d r) (omega arith)
          (inr (ground arith)) in
      (e, rw (is, at_char, other) fails)

  module _ (s : Lineptr) (n : Option ℕ) (b : Buffer) (given : buffer_of s n ≡ some b)
      (text : List ℕ) (all : AllOther delim text) (small : length text + 3 < 2 ^ 64) where
    -- While memory lasts, `getdelim` reads up to the first delimiter: it returns the length of the
    -- line with the delimiter, the line and a zero are in a buffer that is large enough, and the
    -- bytes behind the delimiter are left.
    pub getdelim_lem :
        (rest : List ℕ)
        → (d : Buffer) × (getdelim realloc error delim (text ++ (delim ∷ rest)) s n
            ≡ line (length text + 1) d rest)
          × IsLine 0 b (text ++ (delim ∷ [])) d
    unfolding getdelim
    getdelim_lem rest =
        let (d, reads, l) = read_from-line text rest 0 b all (omega arith) (omega arith) in
        (d, rw (given, getdelim) (reads ∙ ap (λ k. line k d rest) (omega arith)), l)

    -- While memory lasts, an input that ends without a delimiter and without an error is returned as
    -- it is, if it is not empty.
    pub getdelim-end :
        length text ≢ 0
        → error ≡ false
        → (d : Buffer) × (getdelim realloc error delim text s n ≡ line (length text) d [])
          × IsLine 0 b text d
    unfolding getdelim
    getdelim-end some_text fine =
        let (d, reads, l) =
          read_from-end text 0 b all (omega arith) (omega arith) (λ z. some_text (omega (arith, z)))
            fine in
        (d, rw (given, getdelim) (reads ∙ ap (λ k. line k d []) (omega arith)), l)

    -- While memory lasts, an input without a delimiter that is empty or ends in an error gives -1.
    pub getdelim-failed :
        (length text ≡ 0) ⊎ (error ≡ true)
        → (d : Buffer) × (getdelim realloc error delim text s n ≡ failed none d [])
    unfolding getdelim
    getdelim-failed why =
        let (d, e) =
          read_from-failed text 0 b all (omega arith) (omega arith)
            (elim why [ inl e ↦ inl (omega (arith, e)) | inr e ↦ inr e ]) in
        (d, rw (given, getdelim) e)
