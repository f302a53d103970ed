-- ===== src/Scanf/Formats/Rounds.antt =====
-- The parsers of src/scanf_overrides.c on whole formats.
use libc_override.Base.{
  ℕ, zero, suc, ◌≤◌, ◌<◌, ◌≡◌, ◌≢◌, refl, sym, ap, ◌∙◌, Bool, true, false, List, [], ◌∷◌, ◌++◌,
  length, length-append, ◌==◌, arith, fun_ext,
}
use libc_override.Scanf.Ascii
use libc_override.Scanf.Chars.{peek}
use libc_override.Scanf.Numbers.{digits, decimal, saturate}
use libc_override.Scanf.Plan.{Plan, Allocator}
use libc_override.Scanf.Parse.{round, parse_from, parsed}
use libc_override.Scanf.Printed.{
  Modifier, absent, hh, h, l, ll, j, z, t, big_l, print_modifier, print_if,
}
use libc_override.Scanf.Formats.{
  Spec, number, count, chars, string, wide_chars, wide_string, scanset, print_spec, Place, nowhere,
  here, nth, print_place, Field, print_field, Item, text, percent_sign, field, print_item, print,
  IsItem, AllItems, dest_of, next_of, noted_of, ordinal_of, records_of, push_then, push_all,
  is_nowhere,
}
use libc_override.Scanf.Formats.Converts.{
  mode_of, number-IsPlain, settle, parse_from-step, push_then-append, behind, convert-noted,
}
use libc_override.Scanf.Formats.Fields.{spec-IsSpec, field-print}

-- neither the end of a format nor a `%`
abbrev GoesOn : ℕ → Type 0
GoesOn c = ((c == 0) ≡ false) × ((c == Ascii.percent) ≡ false)

spec-GoesOn : (spec : Spec) (rest : List ℕ) → GoesOn (peek (print_spec spec rest))
spec-GoesOn (number n) rest =
    let (no_shift, no_s, no_c, no_bracket, no_n, no_percent, no_end) = number-IsPlain n in
    (no_end, no_percent)
spec-GoesOn count rest = (refl, refl)
spec-GoesOn chars rest = (refl, refl)
spec-GoesOn string rest = (refl, refl)
spec-GoesOn wide_chars rest = (refl, refl)
spec-GoesOn wide_string rest = (refl, refl)
spec-GoesOn (scanset negated bracket c body) rest = (refl, refl)

modifier-GoesOn :
    (m : Modifier) (rest : List ℕ) → GoesOn (peek rest) → GoesOn (peek (print_modifier m rest))
modifier-GoesOn absent rest g = g
modifier-GoesOn hh rest g = (refl, refl)
modifier-GoesOn h rest g = (refl, refl)
modifier-GoesOn l rest g = (refl, refl)
modifier-GoesOn ll rest g = (refl, refl)
modifier-GoesOn j rest g = (refl, refl)
modifier-GoesOn z rest g = (refl, refl)
modifier-GoesOn t rest g = (refl, refl)
modifier-GoesOn big_l rest g = (refl, refl)

alloc-GoesOn :
    (alloc : Bool) (rest : List ℕ)
    → GoesOn (peek rest)
    → GoesOn (peek (print_if alloc Ascii.lower_m rest))
alloc-GoesOn true rest g = (refl, refl)
alloc-GoesOn false rest g = g

digits-GoesOn : (ds rest : List ℕ) → GoesOn (peek rest) → GoesOn (peek (digits ds ++ rest))
digits-GoesOn [] rest g = g
digits-GoesOn (d ∷ ds) rest g = (ground arith, ground arith)

place-GoesOn :
    (place : Place) (rest : List ℕ) → GoesOn (peek rest) → GoesOn (peek (print_place place rest))
place-GoesOn nowhere rest g = (refl, refl)
place-GoesOn here rest g = g
place-GoesOn (nth d ds) rest g = (ground arith, ground arith)

field-GoesOn : (f : Field) (rest : List ℕ) → GoesOn (peek (print_field f rest))
field-GoesOn f rest = place-GoesOn f.place _ (
    digits-GoesOn f.width _
      (alloc-GoesOn f.alloc _ (modifier-GoesOn f.modifier _ (spec-GoesOn f.spec rest))))

-- an item has a character
length-modifier : (m : Modifier) (rest : List ℕ) → length rest ≤ length (print_modifier m rest)
length-modifier absent rest = omega arith
length-modifier hh rest = omega arith
length-modifier h rest = omega arith
length-modifier l rest = omega arith
length-modifier ll rest = omega arith
length-modifier j rest = omega arith
length-modifier z rest = omega arith
length-modifier t rest = omega arith
length-modifier big_l rest = omega arith

length-print_if : (b : Bool) (c : ℕ) (rest : List ℕ) → length rest ≤ length (print_if b c rest)
length-print_if true c rest = omega arith
length-print_if false c rest = omega arith

length-spec : (spec : Spec) (rest : List ℕ) → length rest ≤ length (print_spec spec rest)
length-spec (number n) rest = omega arith
length-spec count rest = omega arith
length-spec chars rest = omega arith
length-spec string rest = omega arith
length-spec wide_chars rest = omega arith
length-spec wide_string rest = omega arith
length-spec (scanset negated bracket c body) rest =
    let closed = body ++ (Ascii.close_bracket ∷ rest) in
    omega (
      arith,
      length-append body (Ascii.close_bracket ∷ rest),
      length-print_if bracket Ascii.close_bracket (c ∷ closed),
      length-print_if negated Ascii.caret (print_if bracket Ascii.close_bracket (c ∷ closed)),
    )

length-place : (place : Place) (rest : List ℕ) → length rest ≤ length (print_place place rest)
length-place nowhere rest = omega arith
length-place here rest = omega arith
length-place (nth d ds) rest = omega (arith, length-append (digits ds) (Ascii.dollar ∷ rest))

length-print_item : (x : Item) (rest : List ℕ) → length rest < length (print_item x rest)
length-print_item (text c) rest = omega arith
length-print_item percent_sign rest = omega arith
length-print_item (field f) rest =
    let at_spec = print_spec f.spec rest in
    let at_modifier = print_modifier f.modifier at_spec in
    let at_m = print_if f.alloc Ascii.lower_m at_modifier in
    omega (
      arith,
      length-spec f.spec rest,
      length-modifier f.modifier at_spec,
      length-print_if f.alloc Ascii.lower_m at_modifier,
      length-append (digits f.width) at_m,
      length-place f.place (digits f.width ++ at_m),
    )

no_dest :
    (args : ℕ → ℕ) (next : ℕ) (place : Place)
    → is_nowhere place ≡ true
    → dest_of args next place ≡ 0
no_dest args next nowhere e = refl
no_dest args next here e = absurd (cc)
no_dest args next (nth d ds) e = absurd (cc)

module _ (A : Allocator) (wide : Bool) (args : ℕ → ℕ) where
  text-parse :
      (n : ℕ) (c next ordinal : ℕ) (rest : List ℕ) (plan : Plan) (mem : A.Mem)
      → c ≢ 0
      → c ≢ Ascii.percent
      → parse_from A (suc n) (mode_of wide) args (behind A next ordinal (c ∷ rest) plan mem)
        ≡ parse_from A n (mode_of wide) args (behind A next ordinal rest plan mem)
  unfolding settle round
  text-parse n c next ordinal rest plan mem ne_0 ne_percent =
      let plain : (c == Ascii.percent) ≡ false = ground (arith, ne_percent) in
      parse_from-step A n (mode_of wide) args (behind A next ordinal (c ∷ rest) plan mem)
        (ground (arith, ne_0))
      ∙ rw (plain, round)

  percent-parse :
      (n : ℕ) (next ordinal : ℕ) (rest : List ℕ) (plan : Plan) (mem : A.Mem)
      → parse_from A
          (suc n)
          (mode_of wide)
          args
          (behind A next ordinal (Ascii.percent ∷ Ascii.percent ∷ rest) plan mem)
        ≡ parse_from A n (mode_of wide) args (behind A next ordinal rest plan mem)
  unfolding settle round
  percent-parse n next ordinal rest plan mem =
      parse_from-step A n (mode_of wide) args
        (behind A next ordinal (Ascii.percent ∷ Ascii.percent ∷ rest) plan mem) refl

  field-parse :
      (n : ℕ) (f : Field) (next ordinal : ℕ) (rest : List ℕ) (plan : Plan) (mem : A.Mem)
      → IsItem (field f)
      → parse_from A
          (suc n)
          (mode_of wide)
          args
          (behind A next ordinal (print_item (field f) rest) plan mem)
        ≡ push_then A (noted_of wide args next ordinal f) plan mem (λ plan' mem'.
          parse_from A n
            (mode_of wide)
            args
            (behind A (next_of next f.place) (ordinal_of ordinal f.place f.spec) rest plan' mem'))
  unfolding round
  field-parse n f next ordinal rest plan mem (is_place, decimals, is_scanset) =
      let s = behind A next ordinal (Ascii.percent ∷ print_field f rest) plan mem in
      let spec = spec-IsSpec f.spec rest in
      let no_percent = (field-GoesOn f rest).1 in
      let no_end = (spec-GoesOn f.spec rest).0 in
      let k = parse_from A n (mode_of wide) args in
      parse_from-step A n (mode_of wide) args s refl
      ∙ rw
          (
            round,
            field-print args next (print_spec f.spec rest) spec f is_place decimals,
            no_percent,
            no_end,
          )
          (convert-noted A wide (dest_of args next f.place) (next_of next f.place)
            (saturate (decimal 0 f.width))
            (digits f.width
              ++ print_if f.alloc Ascii.lower_m
                  (print_modifier f.modifier (print_spec f.spec rest)))
            f.modifier s rest k (is_nowhere f.place) f.alloc f.spec (no_dest args next f.place)
            is_scanset)

  pub parse_from-print :
      (xs : List Item) (n next ordinal : ℕ) (plan : Plan) (mem : A.Mem)
      → length (print xs) ≤ n
      → AllItems xs
      → parse_from A n (mode_of wide) args (behind A next ordinal (print xs) plan mem)
        ≡ push_all A (records_of wide args next ordinal xs) plan mem
  unfolding parse_from push_then
  parse_from-print [] zero next ordinal plan mem le all = refl
  parse_from-print [] (suc n) next ordinal plan mem le all = refl
  parse_from-print (x ∷ xs) zero next ordinal plan mem le all =
      absurd (omega (arith, length-print_item x (print xs)))
  parse_from-print (text c ∷ xs) (suc n) next ordinal plan mem le ((ne_0, ne_percent), all) =
      text-parse n c next ordinal (print xs) plan mem ne_0 ne_percent
      ∙ parse_from-print xs n next ordinal plan mem (omega arith) all
  parse_from-print (percent_sign ∷ xs) (suc n) next ordinal plan mem le (is, all) =
      percent-parse n next ordinal (print xs) plan mem
      ∙ parse_from-print xs n next ordinal plan mem (omega arith) all
  parse_from-print (field f ∷ xs) (suc n) next ordinal plan mem le (is, all) =
      let next' = next_of next f.place in
      let ordinal' = ordinal_of ordinal f.place f.spec in
      field-parse n f next ordinal (print xs) plan mem is
      ∙ ap (push_then A (noted_of wide args next ordinal f) plan mem) (
          fun_ext λ plan'. fun_ext λ mem'.
            parse_from-print xs n next' ordinal' plan' mem'
              (omega (arith, length-print_item (field f) (print xs))) all)
      ∙ sym (
          push_then-append A (noted_of wide args next ordinal f)
            (records_of wide args next' ordinal' xs) plan mem
            (λ plan' mem'. (parsed, (plan', mem'))))
