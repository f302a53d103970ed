-- ===== src/Getdelim/Outcomes.antt =====
-- What `getdelim` of src/line_overrides.c returns and leaves on every branch, whatever `realloc` says.
use libc_override.Base.{
  ℕ, ◌+◌, ◌≤◌, ◌<◌, ◌^◌, ◌≡◌, ◌≢◌, refl, ap, ◌∙◌, Bool, true, false, ◌||◌, List, [], ◌∷◌, ◌++◌,
  length, Option, none, some, arith, ◌⊎◌, inl, inr, ◌==◌, Bool-cases, enomem,
}
use libc_override.Getdelim.{
  Buffer, Realloc, Outcome, line, failed, refused, set_byte, at_char, at_end, read_from, getdelim,
  Lineptr, buffer_of,
}
use libc_override.Getdelim.Buffers.{
  AllOther, Holds, IsLine, Roomy, make_room-cases, IsLine-cons, IsLine-nil, IsLine-last, set-room,
}

-- the bytes that a call which fails has read are in the buffer
pub record IsKept (n : ℕ) (b : Buffer) (text : List ℕ) (d : Buffer) : Type 0 where
  pub holds : Holds d.bytes n text
  pub room : n + length text ≤ d.capacity
  pub before : (i : ℕ) → i < n → d.bytes i ≡ b.bytes i

IsKept-cons :
    (n c : ℕ) (b d e : Buffer) (text : List ℕ)
    → Roomy n b d
    → IsKept (n + 1) (set_byte n c d) text e
    → IsKept n b (c ∷ text) e
unfolding set_byte
IsKept-cons n c b d e text r k = record {
  holds = (k.before n (omega arith) ∙ ground arith, k.holds);
  room = omega (arith, k.room);
  before = λ i h. k.before i (omega arith) ∙ ground (arith, r.same i);
}

module _ (realloc : Realloc) (error : Bool) (delim : ℕ) where
  -- `text` is a line: its only delimiter is its last byte, or it is all of an input that has none and
  -- is not empty
  abbrev pub IsEnded : (count : ℕ) → (text rest : List ℕ) → Type 0
  IsEnded count text rest =
      ((t : List ℕ) × AllOther delim t × (text ≡ t ++ delim ∷ []))
      ⊎ (AllOther delim text × (count ≢ 0) × (rest ≡ []) × (error ≡ false))

  -- what reading `input` behind `n` bytes in the buffer `b` comes to
  abbrev pub Reads : (n : ℕ) → (b : Buffer) → (input : List ℕ) → Outcome → Type 0
  Reads n b input (line count d rest) =
      (text : List ℕ) × (input ≡ text ++ rest)
      × (count ≡ n + length text)
      × IsLine n b text d
      × IsEnded count text rest
  Reads n b input (failed none d rest) =
      AllOther delim input
      × (rest ≡ [])
      × ((n + length input ≡ 0) ⊎ (error ≡ true))
      × IsKept n b input d
  Reads n b input (failed (some e) d rest) =
      (e ≡ enomem)
      × ((text : List ℕ) × (input ≡ text ++ rest)
          × AllOther delim text
          × IsKept n b text d
          × (realloc (n + length text + 2) ≡ none))
  Reads n b input refused = ⊥

  IsEnded-cons :
      (c count : ℕ) (text rest : List ℕ)
      → c ≢ delim
      → IsEnded count text rest
      → IsEnded count (c ∷ text) rest
  IsEnded-cons c count text rest ne (inl (t, all, e)) = inl (c ∷ t, (ne, all), ap (◌∷◌ c) e)
  IsEnded-cons c count text rest ne (inr (all, some_text, none_left, fine)) =
      inr ((ne, all), some_text, none_left, fine)

  Reads-cons :
      (n c : ℕ) (b d : Buffer) (cs : List ℕ)
      → Roomy n b d
      → c ≢ delim
      → (o : Outcome) → Reads (n + 1) (set_byte n c d) cs o
      → Reads n b (c ∷ cs) o
  Reads-cons n c b d cs r ne (line count e rest) (text, is, counts, l, ended) = (
    c ∷ text,
    ap (◌∷◌ c) is,
    omega (arith, counts),
    IsLine-cons n c b d e text r l,
    IsEnded-cons c count text rest ne ended,
  )
  Reads-cons n c b d cs r ne (failed none e rest) (all, none_left, why, kept) = (
    (ne, all),
    none_left,
    elim why [ inl z ↦ absurd (omega (arith, z)) | inr z ↦ inr z ],
    IsKept-cons n c b d e cs r kept,
  )
  Reads-cons n c b d cs r ne (failed (some x) e rest) (is_enomem, (text, is, all, kept, no_room)) =
      let same : n + length (c ∷ text) + 2 ≡ n + 1 + length text + 2 = omega arith in
      (
        is_enomem,
        (
          c ∷ text,
          ap (◌∷◌ c) is,
          (ne, all),
          IsKept-cons n c b d e text r kept,
          ap realloc same ∙ no_room,
        ),
      )
  Reads-cons n c b d cs r ne refused h = absurd h

  no_room-Reads :
      (n : ℕ) (b : Buffer) (input : List ℕ)
      → n ≤ b.capacity
      → realloc (n + 2) ≡ none
      → Reads n b input (failed (some enomem) b input)
  no_room-Reads n b input le no_room =
      let same : n + length {A = ℕ} [] + 2 ≡ n + 2 = omega arith in
      (
        refl,
        (
          [],
          refl,
          tt,
          record { holds = tt; room = omega arith; before = λ i h. refl },
          ap realloc same ∙ no_room,
        ),
      )

  end-Reads : (n : ℕ) (b d : Buffer) → Roomy n b d → Reads n b [] (at_end error n b (some d))
  unfolding at_end
  end-Reads n b d r = elim (Bool-cases ((n == 0) || error)) [
    | inl e ↦
        rw (e, at_end)
          (
            tt,
            refl,
            ground arith,
            record { holds = tt; room = omega (arith, r.room); before = r.same },
          )
    | inr e ↦
        rw (e, at_end)
          ([], refl, omega arith, IsLine-nil n b d r, inr (tt, ground arith, refl, ground arith))
  ]

  read_from-Reads :
      (input : List ℕ) (n : ℕ) (b : Buffer)
      → n ≤ b.capacity
      → n + length input + 3 < 2 ^ 64
      → Reads n b input (read_from realloc error delim input n b)
  unfolding read_from at_end at_char
  read_from-Reads [] n b le small = elim (make_room-cases realloc n b (omega arith) le) [
    | inl (d, is, r) ↦ rw is (end-Reads n b d r)
    | inr (is, no_room) ↦ rw (is, at_end) (no_room-Reads n b [] le no_room)
  ]
  read_from-Reads (c ∷ cs) n b le small = elim (make_room-cases realloc n b (omega arith) le) [
    | inl (d, is, r) ↦
        let rest = read_from-Reads cs (n + 1) (set_byte n c d) (set-room n c b d r) (omega arith) in
        elim (Bool-cases (c == delim)) [
          | inl e ↦
              rw (is, at_char, e)
                (
                  c ∷ [],
                  refl,
                  omega arith,
                  IsLine-last n c b d r,
                  inl ([], tt, ap (λ (x : ℕ). x ∷ []) (ground arith)),
                )
          | inr e ↦
              rw (is, at_char, e)
                (Reads-cons n c b d cs r (λ h. ground arith)
                  (read_from realloc error delim cs (n + 1) (set_byte n c d)) rest)
        ]
    | inr (is, no_room) ↦ rw (is, at_char) (no_room-Reads n b (c ∷ cs) le no_room)
  ]

  -- `getdelim`, whatever `realloc` answers, on every branch. A line is returned with its length, its
  -- delimiter or the end of the input behind it, and its zero, in a buffer that has room for them, and
  -- the bytes behind it are left. At the end of an input that is empty or that ends in an error, without a
  -- delimiter, the result is -1. It is -1 with ENOMEM only where `realloc` has refused the size that
  -- the next byte and a zero need. In both cases the bytes that were read are in the buffer. Of a null
  -- `s` or `n` the result is -1 with EINVAL, and only then.
  pub getdelim-Reads :
      (input : List ℕ) (s : Lineptr) (n : Option ℕ)
      → length input + 3 < 2 ^ 64
      → ((b : Buffer) × (buffer_of s n ≡ some b)
          × Reads 0 b input (getdelim realloc error delim input s n))
        ⊎ (((s ≡ none) ⊎ (n ≡ none)) × (getdelim realloc error delim input s n ≡ refused))
  unfolding getdelim
  getdelim-Reads input none n small = inr (inl refl, refl)
  getdelim-Reads input (some bytes) none small = inr (inr refl, refl)
  getdelim-Reads input (some none) (some n) small = inl (
    _,
    refl,
    read_from-Reads input 0 (record { bytes = λ i. 0; capacity = 0 }) (omega arith) (omega arith),
  )
  getdelim-Reads input (some (some bytes)) (some n) small = inl (
    _,
    refl,
    read_from-Reads input 0 (record { bytes = bytes; capacity = n }) (omega arith) (omega arith),
  )
