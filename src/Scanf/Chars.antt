-- ===== src/Scanf/Chars.antt =====
-- The pieces of a format in src/scanf_overrides.c: widths, positions and scansets. A format is the
-- list of its characters, and the NUL behind them is the end of the list. The functions on
-- `wchar_t` do the same with wider characters.
use libc_override.Base.{
  ℕ, ◌+◌, ◌-◌, ◌*◌, ◌/◌, ◌%◌, ◌^◌, Bool, false, ◌&&◌, ◌||◌, not, List, [], ◌∷◌, ltb, leb, ◌==◌,
  if◌then◌else◌, size_max,
}
use libc_override.Scanf.Ascii

-- `*p`
abbrev pub peek : List ℕ → ℕ
peek [] = 0
peek (c ∷ p) = c

-- `p + 1`
abbrev pub skip : List ℕ → List ℕ
skip [] = []
skip (c ∷ p) = p

abbrev pub skip_if : Bool → List ℕ → List ℕ
skip_if b p = if b then skip p else p

unfoldable pub is_digit : ℕ → Bool
is_digit c = leb Ascii.digit_zero c && leb c Ascii.digit_nine

-- the loop of `ao_parse_width_char`, and where it leaves the cursor
unfoldable pub parse_width_from : ℕ → List ℕ → ℕ × List ℕ
unfolding is_digit
parse_width_from width [] = (width, [])
parse_width_from width (c ∷ p) =
    let next =
      if ltb ((size_max - 9) / 10) width then size_max else width * 10 + (c - Ascii.digit_zero) in
    let rest = parse_width_from next p in if is_digit c then rest else (width, c ∷ p)

unfoldable pub parse_width_char : List ℕ → ℕ × List ℕ
parse_width_char p = parse_width_from 0 p

unfoldable pub parse_width_wchar : List ℕ → ℕ × List ℕ
parse_width_wchar p = parse_width_from 0 p

-- the loop of `ao_parse_position_char`, on an `unsigned int`
unfoldable pub parse_position_from : ℕ → List ℕ → ℕ × List ℕ
unfolding is_digit
parse_position_from value [] = (value, [])
parse_position_from value (c ∷ p) =
    let rest = parse_position_from ((value * 10 + (c - Ascii.digit_zero)) % 2 ^ 32) p in
    if is_digit c then rest else (value, c ∷ p)

-- the result of `ao_parse_position_char`, and what it leaves in its out parameters
pub record Position : Type 0 where
  pub accepted : Bool
  pub position : ℕ
  pub cursor : List ℕ

unfoldable pub parse_position_char : List ℕ → Position
unfolding is_digit
parse_position_char p =
    let (value, p') = parse_position_from 0 p in
    if not (is_digit (peek p))
    then record { accepted = false; position = 0; cursor = p }
    else if not (peek p' == Ascii.dollar)
    then record { accepted = false; position = 0; cursor = p }
    else record { accepted = not (value == 0); position = value; cursor = skip p' }

unfoldable pub parse_position_wchar : List ℕ → Position
parse_position_wchar p = parse_position_char p

-- the loop of `ao_skip_scanset_char`
unfoldable pub skip_to_close : List ℕ → List ℕ
skip_to_close [] = []
skip_to_close (c ∷ p) =
    let rest = skip_to_close p in if (c == 0) || (c == Ascii.close_bracket) then c ∷ p else rest

unfoldable pub skip_scanset_char : List ℕ → List ℕ
skip_scanset_char p =
    let p = skip_if (peek p == Ascii.caret) p in
    let p = skip_if (peek p == Ascii.close_bracket) p in
    let p = skip_to_close p in skip_if (peek p == Ascii.close_bracket) p

unfoldable pub skip_scanset_wchar : List ℕ → List ℕ
skip_scanset_wchar p = skip_scanset_char p
