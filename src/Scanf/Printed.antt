-- ===== src/Scanf/Printed.antt =====
-- The parser against a printer of what stands between a `%` and its conversion character.
use libc_override.Base.{
  ℕ, ◌+◌, ◌≡◌, ◌≢◌, refl, Bool, true, false, List, [], ◌∷◌, ◌++◌, arith, if◌then◌else◌, ◌==◌,
}
use libc_override.Scanf.Ascii
use libc_override.Scanf.Chars.{peek, skip_if, is_digit, parse_width_char, parse_position_char}
use libc_override.Scanf.Numbers.{
  digits, decimal, saturate, AllDecimal, parse_width_lem, position-digits, is_digit-digit,
}
use libc_override.Scanf.Parse.{target, modifier, directive}
use libc_override.Scanf.Plan.{Size}

-- the length modifiers
pub data Modifier : Type 0 where
  absent hh h l ll j z t big_l : Modifier

abbrev pub print_modifier : Modifier → List ℕ → List ℕ
print_modifier absent p = p
print_modifier hh p = Ascii.lower_h ∷ Ascii.lower_h ∷ p
print_modifier h p = Ascii.lower_h ∷ p
print_modifier l p = Ascii.lower_l ∷ p
print_modifier ll p = Ascii.lower_l ∷ Ascii.lower_l ∷ p
print_modifier j p = Ascii.lower_j ∷ p
print_modifier z p = Ascii.lower_z ∷ p
print_modifier t p = Ascii.lower_t ∷ p
print_modifier big_l p = Ascii.upper_l ∷ p

abbrev pub size_of : Modifier → Size
size_of l = Size.l
size_of _ = Size.def

-- what a directive says, behind its `%` and in front of its conversion character
pub record Conversion : Type 0 where
  pub suppressed : Bool
  pub width : List ℕ
  pub alloc : Bool
  pub modifier : Modifier

abbrev pub print_if : Bool → ℕ → List ℕ → List ℕ
print_if true c p = c ∷ p
print_if false c p = p

abbrev pub print : Conversion → List ℕ → List ℕ
print c p =
    print_if c.suppressed Ascii.star
      (digits c.width ++ print_if c.alloc Ascii.lower_m (print_modifier c.modifier p))

-- a character that can end a directive: none that would go on with one
pub record IsSpec (c : ℕ) : Type 0 where
  pub digit : is_digit c ≡ false
  pub star : c ≢ Ascii.star
  pub dollar : c ≢ Ascii.dollar
  pub lower_m : c ≢ Ascii.lower_m
  pub lower_l : c ≢ Ascii.lower_l
  pub lower_h : c ≢ Ascii.lower_h
  pub lower_j : c ≢ Ascii.lower_j
  pub lower_z : c ≢ Ascii.lower_z
  pub lower_t : c ≢ Ascii.lower_t
  pub upper_l : c ≢ Ascii.upper_l

module _ (p : List ℕ) (spec : IsSpec (peek p)) where
  pub modifier-print : (m : Modifier) → modifier (print_modifier m p) ≡ (size_of m, p)
  unfolding modifier
  modifier-print absent =
      ground
        (arith, spec.lower_l, spec.lower_h, spec.lower_j, spec.lower_z, spec.lower_t, spec.upper_l)
  modifier-print hh = refl
  modifier-print h = ground (arith, spec.lower_h)
  modifier-print l = ground (arith, spec.lower_l)
  modifier-print ll = refl
  modifier-print j = refl
  modifier-print z = refl
  modifier-print t = refl
  modifier-print big_l = refl

  -- neither a digit nor what would make a position or a suppression
  abbrev pub Ends : ℕ → Type 0
  Ends c = (is_digit c ≡ false) × (c ≢ Ascii.dollar) × (c ≢ Ascii.star)

  pub modifier-Ends : (m : Modifier) → Ends (peek (print_modifier m p))
  unfolding is_digit
  modifier-Ends absent = (spec.digit, spec.dollar, spec.star)
  modifier-Ends hh = (refl, λ e. omega (arith, e), λ e. omega (arith, e))
  modifier-Ends h = (refl, λ e. omega (arith, e), λ e. omega (arith, e))
  modifier-Ends l = (refl, λ e. omega (arith, e), λ e. omega (arith, e))
  modifier-Ends ll = (refl, λ e. omega (arith, e), λ e. omega (arith, e))
  modifier-Ends j = (refl, λ e. omega (arith, e), λ e. omega (arith, e))
  modifier-Ends z = (refl, λ e. omega (arith, e), λ e. omega (arith, e))
  modifier-Ends t = (refl, λ e. omega (arith, e), λ e. omega (arith, e))
  modifier-Ends big_l = (refl, λ e. omega (arith, e), λ e. omega (arith, e))

  -- what follows the width
  abbrev pub tail : Bool → Modifier → List ℕ
  tail alloc m = print_if alloc Ascii.lower_m (print_modifier m p)

  pub tail-Ends : (alloc : Bool) (m : Modifier) → Ends (peek (tail alloc m))
  unfolding is_digit
  tail-Ends true m = (refl, λ e. omega (arith, e), λ e. omega (arith, e))
  tail-Ends false m = modifier-Ends m

  modifier-ne-m : (m : Modifier) → peek (print_modifier m p) ≢ Ascii.lower_m
  modifier-ne-m absent e = spec.lower_m e
  modifier-ne-m hh e = omega (arith, e)
  modifier-ne-m h e = omega (arith, e)
  modifier-ne-m l e = omega (arith, e)
  modifier-ne-m ll e = omega (arith, e)
  modifier-ne-m j e = omega (arith, e)
  modifier-ne-m z e = omega (arith, e)
  modifier-ne-m t e = omega (arith, e)
  modifier-ne-m big_l e = omega (arith, e)

  pub alloc-print :
      (alloc : Bool) (m : Modifier)
      → ((peek (tail alloc m) == Ascii.lower_m) ≡ alloc)
        × (skip_if alloc (tail alloc m) ≡ print_modifier m p)
  alloc-print true m = (refl, refl)
  alloc-print false m = (ground (arith, modifier-ne-m m), refl)

-- digits without a `$` behind them are no position
no_position :
    (ds rest : List ℕ)
    → AllDecimal ds
    → is_digit (peek rest) ≡ false
    → peek rest ≢ Ascii.dollar
    → parse_position_char (digits ds ++ rest)
      ≡ record { accepted = false; position = 0; cursor = digits ds ++ rest }
unfolding parse_position_char
no_position [] rest all end no_dollar = rw end refl
no_position (d ∷ ds) rest all end no_dollar =
    let plain : (peek rest == Ascii.dollar) ≡ false = ground (arith, no_dollar) in
    rw (position-digits (d ∷ ds) rest 0 all end (omega arith), is_digit-digit d all.0, plain) refl

-- the digits of a width, if there are any
pub width-print :
    (ds rest : List ℕ)
    → AllDecimal ds
    → is_digit (peek rest) ≡ false
    → (if is_digit (peek (digits ds ++ rest))
        then parse_width_char (digits ds ++ rest)
        else (0, digits ds ++ rest))
      ≡ (saturate (decimal 0 ds), rest)
width-print [] rest all end = rw end refl
width-print (d ∷ ds) rest all end =
    rw (is_digit-digit d all.0, (parse_width_lem (d ∷ ds) rest all end).0) refl

digits-ne-star :
    (ds rest : List ℕ) → peek rest ≢ Ascii.star → (peek (digits ds ++ rest) == Ascii.star) ≡ false
digits-ne-star [] rest ne = ground (arith, ne)
digits-ne-star (d ∷ ds) rest ne = ground arith

module _ (args : ℕ → ℕ) (next : ℕ) (p : List ℕ) (spec : IsSpec (peek p)) where
  pub target-print :
      (suppressed alloc : Bool) (ds : List ℕ) (m : Modifier)
      → AllDecimal ds
      → target args next (print_if suppressed Ascii.star (digits ds ++ tail p spec alloc m))
        ≡ record {
          suppressed = suppressed;
          dest = if suppressed then 0 else args next;
          cursor = digits ds ++ tail p spec alloc m;
          next = if suppressed then next else next + 1;
        }
  unfolding target
  target-print true alloc ds m all = refl
  target-print false alloc ds m all =
      let (end, no_dollar, no_star) = tail-Ends p spec alloc m in
      rw
        (
          no_position ds (tail p spec alloc m) all end no_dollar,
          digits-ne-star ds (tail p spec alloc m) no_star,
        )
        refl

  -- The parser reads a directive as it was printed: whether it is suppressed, its width up to the
  -- largest `size_t`, its `m` and its size. It takes one argument unless it is suppressed, and stops
  -- at the conversion character.
  pub directive-print :
      (c : Conversion)
      → AllDecimal c.width
      → directive args next (print c p) ≡ record {
        target = record {
          suppressed = c.suppressed;
          dest = if c.suppressed then 0 else args next;
          cursor = digits c.width ++ print_if c.alloc Ascii.lower_m (print_modifier c.modifier p);
          next = if c.suppressed then next else next + 1;
        };
        width = saturate (decimal 0 c.width);
        alloc = c.alloc;
        size = size_of c.modifier;
        cursor = p;
      }
  unfolding directive
  directive-print c all =
      let (is_m, behind) = alloc-print p spec c.alloc c.modifier in
      rw
        (
          target-print c.suppressed c.alloc c.width c.modifier all,
          width-print c.width (tail p spec c.alloc c.modifier) all
              (tail-Ends p spec c.alloc c.modifier).0,
          is_m,
          behind,
          modifier-print p spec c.modifier,
        )
        refl
