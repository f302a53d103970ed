-- ===== src/Getdelim/Buffers.antt =====
-- The buffer of `getdelim` in src/line_overrides.c: its room, and the text in it.
use libc_override.Base.{
  ℕ, ◌+◌, ◌-◌, ◌≤◌, ◌<◌, ◌^◌, ◌≡◌, ◌≢◌, refl, ap, sym, ◌∙◌, true, false, List, [], ◌∷◌, length,
  Option, none, some, arith, ◌⊎◌, inl, inr, ltb, leb, is_some, Bool-cases, Option-cases, size_max,
}
use libc_override.Getdelim.{
  Buffer, Realloc, resized, or_else, roomy, grow_line_buffer, make_room, set_byte,
}

-- no byte is the delimiter
abbrev pub AllOther : ℕ → List ℕ → Type 0
AllOther delim [] = Unit {0}
AllOther delim (c ∷ cs) = (c ≢ delim) × AllOther delim cs

-- `text` stands at `at`
abbrev pub Holds : (ℕ → ℕ) → ℕ → List ℕ → Type 0
Holds m at [] = Unit {0}
Holds m at (c ∷ cs) = (m at ≡ c) × Holds m (at + 1) cs

-- room for one more byte and a zero, and the same bytes below `n`
pub record Roomy (n : ℕ) (b d : Buffer) : Type 0 where
  pub room : n + 1 < d.capacity
  pub same : (i : ℕ) → i < n → d.bytes i ≡ b.bytes i

resized-Roomy :
    (size n : ℕ) (x : Option (ℕ → ℕ)) (b d : Buffer)
    → resized size x b ≡ some d
    → n + 1 < size
    → n ≤ b.capacity
    → Roomy n b d
unfolding resized
resized-Roomy size n none b d e lt le = cc
resized-Roomy size n (some tail) b d e lt le = record {
  room = ground arith;
  same = λ i h. ground arith;
}

roomy-ge : (n : ℕ) → n ≤ roomy n
unfolding roomy
roomy-ge n = ground arith

resized-refused : (size : ℕ) (x : Option (ℕ → ℕ)) (b : Buffer) → resized size x b ≡ none → x ≡ none
unfolding resized
resized-refused size none b e = refl
resized-refused size (some tail) b e = cc

-- There is room for one more byte and a zero, or `realloc` has refused the smallest size that has it.
pub make_room-cases :
    (realloc : Realloc) (n : ℕ) (b : Buffer)
    → n + 2 < 2 ^ 64
    → n ≤ b.capacity
    → ((d : Buffer) × (make_room realloc n b ≡ some d) × Roomy n b d)
      ⊎ ((make_room realloc n b ≡ none) × (realloc (n + 2) ≡ none))
unfolding make_room grow_line_buffer or_else
make_room-cases realloc n b small le = elim (Bool-cases (leb b.capacity (n + 1))) [
  | inl e ↦
      let few : ltb (size_max - 2) n ≡ false = ground arith in
      let roomy_size = roomy (n + 2) in
      let first = resized roomy_size (realloc roomy_size) b in
      let second = resized (n + 2) (realloc (n + 2)) b in
      elim (Option-cases first) [
        | inr (d, is) ↦ inl (
          d,
          rw (e, few, is, or_else) refl,
          resized-Roomy roomy_size n (realloc roomy_size) b d is (omega (arith, roomy-ge (n + 2)))
              le,
        )
        | inl is ↦ elim (Option-cases second) [
          | inr (d, is') ↦ inl (
            d,
            rw (e, few, is, is', or_else) refl,
            resized-Roomy (n + 2) n (realloc (n + 2)) b d is' (omega arith) le,
          )
          | inl is' ↦
              inr (
                rw (e, few, is, is', or_else) refl,
                resized-refused (n + 2) (realloc (n + 2)) b is',
              )
        ]
      ]
  | inr e ↦ inl (b, rw e refl, record { room = ground arith; same = λ i h. refl })
]

-- Where `realloc` gives what it is asked for, there is room.
pub make_room-Roomy :
    (realloc : Realloc)
    → ((n : ℕ) → is_some (realloc n) ≡ true)
    → (n : ℕ) (b : Buffer) → n + 2 < 2 ^ 64
    → n ≤ b.capacity
    → (d : Buffer) × (make_room realloc n b ≡ some d) × Roomy n b d
make_room-Roomy realloc gives n b small le = elim (make_room-cases realloc n b small le) [
  | inl found ↦ found
  | inr (no_room, e) ↦ absurd (cc (gives (n + 2)))
]

-- `text` was read into the buffer behind its first `n` bytes, and a zero stands behind it
pub record IsLine (n : ℕ) (b : Buffer) (text : List ℕ) (d : Buffer) : Type 0 where
  pub holds : Holds d.bytes n text
  pub ends : d.bytes (n + length text) ≡ 0
  pub room : n + length text < d.capacity
  pub before : (i : ℕ) → i < n → d.bytes i ≡ b.bytes i

-- one more byte in front
pub IsLine-cons :
    (n c : ℕ) (b d e : Buffer) (text : List ℕ)
    → Roomy n b d
    → IsLine (n + 1) (set_byte n c d) text e
    → IsLine n b (c ∷ text) e
unfolding set_byte
IsLine-cons n c b d e text r l =
    let n_c : n + 1 + length text ≡ n + length (c ∷ text) = omega arith in
    record {
      holds = (l.before n (omega arith) ∙ ground arith, l.holds);
      ends = ap e.bytes (sym n_c) ∙ l.ends;
      room = omega (arith, l.room);
      before = λ i h. l.before i (omega arith) ∙ ground (arith, r.same i);
    }

pub IsLine-nil : (n : ℕ) (b d : Buffer) → Roomy n b d → IsLine n b [] (set_byte n 0 d)
unfolding set_byte
IsLine-nil n b d r = record {
  holds = tt;
  ends = ground arith;
  room = omega (arith, r.room);
  before = λ i h. ground (arith, r.same i);
}

-- the zero behind a delimiter
pub IsLine-last :
    (n c : ℕ) (b d : Buffer)
    → Roomy n b d
    → IsLine n b (c ∷ []) (set_byte (n + 1) 0 (set_byte n c d))
unfolding set_byte
IsLine-last n c b d r = record {
  holds = (ground arith, tt);
  ends = ground arith;
  room = omega (arith, r.room);
  before = λ i h. ground (arith, r.same i);
}

pub set-room : (n c : ℕ) (b d : Buffer) → Roomy n b d → n + 1 ≤ (set_byte n c d).capacity
unfolding set_byte
set-room n c b d r = omega (arith, r.room)
