-- ===== src/Scanf/Formats/Fields.antt =====
-- The parser of src/scanf_overrides.c at one conversion of a printed format, up to its character.
use libc_override.Base.{ℕ, ◌+◌, ◌≡◌, refl, Bool, true, false, not, ◌||◌, List, ◌++◌, ◌==◌, arith}
use libc_override.Scanf.Ascii
use libc_override.Scanf.Chars.{peek, is_digit}
use libc_override.Scanf.Numbers.{digits, decimal, saturate, AllDecimal, parse_position_lem}
use libc_override.Scanf.Parse.{target, directive, arg_n}
use libc_override.Scanf.Printed.{
  Modifier, print_modifier, print_if, size_of, IsSpec, tail, tail-Ends, alloc-print, width-print,
  modifier-print, target-print,
}
use libc_override.Scanf.Formats.{
  Number, number_char, Spec, number, count, chars, string, wide_chars, wide_string, scanset,
  print_spec, Place, nowhere, here, nth, print_place, Field, IsPlace, dest_of, next_of, is_nowhere,
}

-- a character that goes on with no directive
abbrev ends_directive : ℕ → Bool
unfolding is_digit
ends_directive c = not (
    is_digit c
    || ((c == Ascii.star)
        || ((c == Ascii.dollar)
            || ((c == Ascii.lower_m)
                || ((c == Ascii.lower_l)
                    || ((c == Ascii.lower_h)
                        || ((c == Ascii.lower_j)
                            || ((c == Ascii.lower_z)
                                || ((c == Ascii.lower_t) || (c == Ascii.upper_l))))))))))

ends-IsSpec : (c : ℕ) → ends_directive c ≡ true → IsSpec c
unfolding is_digit
ends-IsSpec c h = record {
  digit = ground arith;
  star = λ e. ground arith;
  dollar = λ e. ground arith;
  lower_m = λ e. ground arith;
  lower_l = λ e. ground arith;
  lower_h = λ e. ground arith;
  lower_j = λ e. ground arith;
  lower_z = λ e. ground arith;
  lower_t = λ e. ground arith;
  upper_l = λ e. ground arith;
}

number-ends : (n : Number) → ends_directive (number_char n) ≡ true
unfolding is_digit
number-ends Number.lower_d = refl
number-ends Number.lower_i = refl
number-ends Number.lower_o = refl
number-ends Number.lower_u = refl
number-ends Number.lower_x = refl
number-ends Number.upper_x = refl
number-ends Number.lower_a = refl
number-ends Number.lower_e = refl
number-ends Number.lower_f = refl
number-ends Number.lower_g = refl
number-ends Number.upper_a = refl
number-ends Number.upper_e = refl
number-ends Number.upper_f = refl
number-ends Number.upper_g = refl
number-ends Number.lower_p = refl

pub spec-IsSpec : (spec : Spec) (rest : List ℕ) → IsSpec (peek (print_spec spec rest))
unfolding is_digit
spec-IsSpec (number n) rest = ends-IsSpec (number_char n) (number-ends n)
spec-IsSpec count rest = ends-IsSpec b'n' refl
spec-IsSpec chars rest = ends-IsSpec b'c' refl
spec-IsSpec string rest = ends-IsSpec b's' refl
spec-IsSpec wide_chars rest = ends-IsSpec b'C' refl
spec-IsSpec wide_string rest = ends-IsSpec b'S' refl
spec-IsSpec (scanset negated bracket c body) rest = ends-IsSpec b'[' refl

module _ (args : ℕ → ℕ) (next : ℕ) (p : List ℕ) (spec : IsSpec (peek p)) where
  -- what the parser knows of where a conversion stores, behind that choice
  pub place-print :
      (place : Place) (alloc : Bool) (ds : List ℕ) (m : Modifier)
      → IsPlace place
      → AllDecimal ds
      → target args next (print_place place (digits ds ++ tail p spec alloc m)) ≡ record {
        suppressed = is_nowhere place;
        dest = dest_of args next place;
        cursor = digits ds ++ tail p spec alloc m;
        next = next_of next place;
      }
  unfolding target arg_n
  place-print nowhere alloc ds m is all = target-print args next p spec true alloc ds m all
  place-print here alloc ds m is all = target-print args next p spec false alloc ds m all
  place-print (nth d es) alloc ds m (decimals, positive) all =
      let no_star : (Ascii.digit_zero + d == Ascii.star) ≡ false = ground arith in
      rw (parse_position_lem d es (digits ds ++ tail p spec alloc m) decimals, no_star, positive)
        refl

  -- A field is read as it was written, up to its character.
  pub field-print :
      (f : Field)
      → IsPlace f.place
      → AllDecimal f.width
      → directive args next (
          print_place f.place
            (digits f.width ++ print_if f.alloc Ascii.lower_m (print_modifier f.modifier p)))
        ≡ record {
          target = record {
            suppressed = is_nowhere f.place;
            dest = dest_of args next f.place;
            cursor = digits f.width ++ print_if f.alloc Ascii.lower_m (print_modifier f.modifier p);
            next = next_of next f.place;
          };
          width = saturate (decimal 0 f.width);
          alloc = f.alloc;
          size = size_of f.modifier;
          cursor = p;
        }
  unfolding directive
  field-print f is all =
      let (is_m, behind) = alloc-print p spec f.alloc f.modifier in
      rw
        (
          place-print f.place f.alloc f.width f.modifier is all,
          width-print f.width (tail p spec f.alloc f.modifier) all
              (tail-Ends p spec f.alloc f.modifier).0,
          is_m,
          behind,
          modifier-print p spec f.modifier,
        )
        refl
