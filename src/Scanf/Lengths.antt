-- ===== src/Scanf/Lengths.antt =====
-- The pieces of a format only move its cursor on.
use libc_override.Base.{
  ℕ, ◌+◌, ◌-◌, ◌≤◌, ◌<◌, ◌≡◌, ◌≢◌, Bool, true, false, List, [], ◌∷◌, length, arith, if◌then◌else◌,
  Bool-cases, inl, inr, ◌==◌, ◌&&◌, ltb, size_max, ◌*◌, ◌/◌, ◌%◌, ◌^◌,
}
use libc_override.Scanf.Ascii
use libc_override.Scanf.Chars.{
  peek, skip, skip_if, is_digit, parse_width_from, parse_width_char, parse_position_from,
  parse_position_char, skip_to_close, skip_scanset_char,
}
use libc_override.Scanf.Parse.{target, modifier, directive}

length-skip : (p : List ℕ) → length (skip p) ≡ length p - 1
length-skip [] = omega arith
length-skip (c ∷ p) = omega arith

pub length-skip_if : (b : Bool) (p : List ℕ) → length (skip_if b p) ≤ length p
length-skip_if true p = omega (arith, length-skip p)
length-skip_if false p = omega arith

-- behind a character that is not the NUL there is less
pub skip-lt : (p : List ℕ) → peek p ≢ 0 → length (skip p) < length p
skip-lt [] ne = absurd (ne (λ i. 0))
skip-lt (c ∷ p) ne = omega arith

width-length : (p : List ℕ) (v : ℕ) → length (parse_width_from v p).1 ≤ length p
unfolding parse_width_from
width-length [] v = omega arith
width-length (c ∷ p) v = elim (Bool-cases (is_digit c)) [
  | inl e ↦ rw e (
      ground (
        arith,
        width-length p
            (if ltb ((size_max - 9) / 10) v then size_max else v * 10 + (c - Ascii.digit_zero)),
      ))
  | inr e ↦ rw e (omega arith)
]

position_from-length : (p : List ℕ) (v : ℕ) → length (parse_position_from v p).1 ≤ length p
unfolding parse_position_from
position_from-length [] v = omega arith
position_from-length (c ∷ p) v = elim (Bool-cases (is_digit c)) [
  | inl e ↦
      rw e (omega (arith, position_from-length p ((v * 10 + (c - Ascii.digit_zero)) % 2 ^ 32)))
  | inr e ↦ rw e (omega arith)
]

position-length : (p : List ℕ) → length (parse_position_char p).cursor ≤ length p
unfolding parse_position_char
position-length p =
    ground (arith, position_from-length p 0, length-skip (parse_position_from 0 p).1)

close-length : (p : List ℕ) → length (skip_to_close p) ≤ length p
unfolding skip_to_close
close-length [] = omega arith
close-length (c ∷ p) = ground (arith, close-length p)

pub scanset-length : (p : List ℕ) → length (skip_scanset_char p) ≤ length p
unfolding skip_scanset_char
scanset-length p =
    let p₁ = skip_if (peek p == Ascii.caret) p in
    let p₂ = skip_if (peek p₁ == Ascii.close_bracket) p₁ in
    let p₃ = skip_to_close p₂ in
    omega (
      arith,
      length-skip_if (peek p == Ascii.caret) p,
      length-skip_if (peek p₁ == Ascii.close_bracket) p₁,
      close-length p₂,
      length-skip_if (peek p₃ == Ascii.close_bracket) p₃,
    )

target-length :
    (args : ℕ → ℕ) (next : ℕ) (p : List ℕ) → length (target args next p).cursor ≤ length p
unfolding target
target-length args next p = ground (arith, position-length p, length-skip p)

modifier-length : (p : List ℕ) → length (modifier p).1 ≤ length p
unfolding modifier
modifier-length p = ground (
  arith,
  length-skip p,
  length-skip (skip p),
  length-skip_if ((peek p == Ascii.lower_h) && (peek (skip p) == Ascii.lower_h)) p,
  length-skip (skip_if ((peek p == Ascii.lower_h) && (peek (skip p) == Ascii.lower_h)) p),
)

-- the cursor behind the width, if there is one
width_if-length :
    (p : List ℕ) → length (if is_digit (peek p) then parse_width_char p else (0, p)).1 ≤ length p
unfolding parse_width_char
width_if-length p = elim (Bool-cases (is_digit (peek p))) [
  | inl e ↦ rw e (width-length p 0)
  | inr e ↦ rw e (omega arith)
]

pub directive-length :
    (args : ℕ → ℕ) (next : ℕ) (p : List ℕ) → length (directive args next p).cursor ≤ length p
unfolding directive
directive-length args next p =
    let c = (target args next p).cursor in
    let w = (if is_digit (peek c) then parse_width_char c else (0, c)).1 in
    omega (
      arith,
      target-length args next p,
      width_if-length c,
      length-skip_if (peek w == Ascii.lower_m) w,
      modifier-length (skip_if (peek w == Ascii.lower_m) w),
    )
