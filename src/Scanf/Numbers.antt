-- ===== src/Scanf/Numbers.antt =====
-- What the digits of a format mean.
use libc_override.Base.{
  ℕ, ◌+◌, ◌-◌, ◌*◌, ◌/◌, ◌%◌, ◌^◌, ◌≤◌, ◌<◌, ◌≡◌, refl, true, false, List, [], ◌∷◌, ◌++◌, arith,
  ltb, ◌==◌, if◌then◌else◌, size_max, Bool-cases, ap, sym, ◌∙◌, inl, inr, not,
}
use libc_override.Scanf.Ascii
use libc_override.Scanf.Chars.{
  peek, is_digit, parse_width_from, parse_width_char, parse_width_wchar, parse_position_from,
  parse_position_char,
}

-- the digits that stand for `ds`, and the number that they write behind `value`
abbrev pub digits : List ℕ → List ℕ
digits [] = []
digits (d ∷ ds) = (Ascii.digit_zero + d) ∷ digits ds

abbrev pub decimal : ℕ → List ℕ → ℕ
decimal value [] = value
decimal value (d ∷ ds) = decimal (value * 10 + d) ds

abbrev pub AllDecimal : List ℕ → Type 0
AllDecimal [] = Unit {0}
AllDecimal (d ∷ ds) = (d < 10) × AllDecimal ds

-- the largest number from which one more digit does not overflow
abbrev pub width_limit : ℕ
width_limit = (size_max - 9) / 10

abbrev pub saturate : ℕ → ℕ
saturate v = if ltb width_limit (v / 10) then size_max else v

decimal-ge : (ds : List ℕ) (value : ℕ) → value ≤ decimal value ds
decimal-ge [] value = omega arith
decimal-ge (d ∷ ds) value = omega (arith, decimal-ge ds (value * 10 + d))

pub is_digit-digit : (d : ℕ) → d < 10 → is_digit (Ascii.digit_zero + d) ≡ true
unfolding is_digit
is_digit-digit d h = ground arith

-- the loop ends at the first character that is no digit
width-ends :
    (v : ℕ) (rest : List ℕ) → is_digit (peek rest) ≡ false → parse_width_from v rest ≡ (v, rest)
unfolding parse_width_from
width-ends v [] end = refl
width-ends v (c ∷ p) end = rw end refl

-- one round at a digit
width-step :
    (v d : ℕ) (p : List ℕ)
    → d < 10
    → parse_width_from v ((Ascii.digit_zero + d) ∷ p)
      ≡ parse_width_from (if ltb width_limit v then size_max else v * 10 + d) p
unfolding parse_width_from is_digit
width-step v d p h =
    let value : Ascii.digit_zero + d - Ascii.digit_zero ≡ d = omega arith in
    rw (is_digit-digit d h, value) refl

width-saturated :
    (ds rest : List ℕ)
    → AllDecimal ds
    → is_digit (peek rest) ≡ false
    → parse_width_from size_max (digits ds ++ rest) ≡ (size_max, rest)
width-saturated [] rest all end = width-ends size_max rest end
width-saturated (d ∷ ds) rest (h, all) end =
    width-step size_max d (digits ds ++ rest) h ∙ width-saturated ds rest all end

width-lem :
    (ds rest : List ℕ) (value : ℕ)
    → AllDecimal ds
    → is_digit (peek rest) ≡ false
    → ltb width_limit (value / 10) ≡ false
    → parse_width_from value (digits ds ++ rest) ≡ (saturate (decimal value ds), rest)
width-lem [] rest value all end small = width-ends value rest end ∙ rw small refl
width-lem (d ∷ ds) rest value (h, all) end small =
    width-step value d (digits ds ++ rest) h ∙ elim (Bool-cases (ltb width_limit value)) [
      | inl big ↦ rw big (
          width-saturated ds rest all end
          ∙ ap (λ v. (v, rest)) (ground (arith, decimal-ge ds (value * 10 + d))))
      | inr fits ↦ rw fits (width-lem ds rest (value * 10 + d) all end (ground arith))
    ]

-- The digits of a width are read as the number that they write, and any that might not fit a
-- `size_t` as the largest one; the cursor is left behind them.
pub parse_width_lem :
    (ds rest : List ℕ)
    → AllDecimal ds
    → is_digit (peek rest) ≡ false
    → (parse_width_char (digits ds ++ rest) ≡ (saturate (decimal 0 ds), rest))
      × (parse_width_wchar (digits ds ++ rest) ≡ (saturate (decimal 0 ds), rest))
unfolding parse_width_char parse_width_wchar
parse_width_lem ds rest all end =
    (width-lem ds rest 0 all end refl, width-lem ds rest 0 all end refl)

-- the loop over a position ends there too
position-ends :
    (v : ℕ) (rest : List ℕ) → is_digit (peek rest) ≡ false → parse_position_from v rest ≡ (v, rest)
unfolding parse_position_from
position-ends v [] end = refl
position-ends v (c ∷ p) end = rw end refl

decimal_mod :
    (ds : List ℕ) (value : ℕ) → decimal (value % 2 ^ 32) ds % 2 ^ 32 ≡ decimal value ds % 2 ^ 32
decimal_mod [] value = omega arith
decimal_mod (d ∷ ds) value =
    sym (decimal_mod ds (value % 2 ^ 32 * 10 + d))
    ∙ ap (λ v. decimal v ds % 2 ^ 32) (omega arith)
    ∙ decimal_mod ds (value * 10 + d)

pub position-digits :
    (ds rest : List ℕ) (value : ℕ)
    → AllDecimal ds
    → is_digit (peek rest) ≡ false
    → value < 2 ^ 32
    → parse_position_from value (digits ds ++ rest) ≡ (decimal value ds % 2 ^ 32, rest)
unfolding parse_position_from is_digit
position-digits [] rest value all end small =
    position-ends value rest end ∙ ap (λ v. (v, rest)) (omega arith)
position-digits (d ∷ ds) rest value (h, all) end small =
    let digit : Ascii.digit_zero + d - Ascii.digit_zero ≡ d = omega arith in
    rw (is_digit-digit d h, digit)
      (position-digits ds rest ((value * 10 + d) % 2 ^ 32) all end (omega arith)
        ∙ ap (λ v. (v, rest)) (decimal_mod ds (value * 10 + d)))

is_digit-dollar : is_digit Ascii.dollar ≡ false
unfolding is_digit
is_digit-dollar = refl

-- A position is accepted if it has digits, a `$` behind them, and a value that is not 0 as an
-- `unsigned int`; then that value is its number, and the cursor is left behind the `$`.
pub parse_position_lem :
    (d : ℕ) (ds rest : List ℕ)
    → AllDecimal (d ∷ ds)
    → parse_position_char (digits (d ∷ ds) ++ (Ascii.dollar ∷ rest)) ≡ record {
      accepted = not (decimal 0 (d ∷ ds) % 2 ^ 32 == 0);
      position = decimal 0 (d ∷ ds) % 2 ^ 32;
      cursor = rest;
    }
unfolding parse_position_char
parse_position_lem d ds rest all =
    rw
      (
        position-digits (d ∷ ds) (Ascii.dollar ∷ rest) 0 all is_digit-dollar (omega arith),
        is_digit-digit d all.0,
      )
      refl
