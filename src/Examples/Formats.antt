-- ===== src/Examples/Formats.antt =====
-- The theorem on whole formats of src/scanf_overrides.c, at one with every kind of item, and the one on
-- the first push to a plan.
use libc_override.Base.{ℕ, ◌+◌, ◌*◌, ◌≡◌, ◌⊎◌, refl, true, false, List, length, [], ◌∷◌, arith}
use libc_override.Examples.Allocator.{move_block}
use libc_override.Examples.Scans.{allocator, heap, noted}
use libc_override.Scanf.Formats.Whole.{Notes, parse-print}
use libc_override.Scanf.Formats.{
  lower_d, number, count, chars, scanset, nowhere, here, nth, Field, Item, text, percent_sign,
  field, print, AllItems, records_of,
}
use libc_override.Scanf.Growth.{Pushes, plan_push_lem}
use libc_override.Scanf.Parse.{parse_scanf_format, parse_wscanf_format}
use libc_override.Scanf.Plan.{Mode, no_plan, plan_push, record_size}
use libc_override.Scanf.Printed.{absent, l}

abbrev args : ℕ → ℕ
args n = 64 + n

abbrev any : Field
any = record { place = here; width = []; alloc = false; modifier = absent; spec = number lower_d }

-- "x%%%*d%2$12mlc%m[^]a]%n"
abbrev items : List Item
items =
    text 120
    ∷ percent_sign
    ∷ field (record any { place = nowhere })
    ∷ field (record any {
      place = nth 2 [];
      width = 1 ∷ 2 ∷ [];
      alloc = true;
      modifier = l;
      spec = chars;
    })
    ∷ field (record any { alloc = true; spec = scanset true true 97 [] })
    ∷ field (record any { spec = count })
    ∷ []

items-print :
    print items
    ≡ 120 ∷ 37 ∷ 37 ∷ 37 ∷ 42 ∷ 100 ∷ 37 ∷ 50 ∷ 36 ∷ 49 ∷ 50 ∷ 109 ∷ 108 ∷ 99 ∷ 37 ∷ 109 ∷ 91 ∷ 94
      ∷ 93 ∷ 97 ∷ 93 ∷ 37 ∷ 110 ∷ []
items-print = refl

items-AllItems : AllItems items
items-AllItems = (
  (λ e. omega (arith, e), λ e. omega (arith, e)),
  (
    tt,
    (
      (tt, tt, tt),
      (
        (((omega arith, tt), refl), (omega arith, (omega arith, tt)), tt),
        (
          (tt, tt, ((λ e. omega (arith, e), λ e. omega (arith, e), tt), λ e. omega (arith, e))),
          ((tt, tt, tt), tt),
        ),
      ),
    ),
  ),
)

-- the second argument gets 12 wide characters, and the first one the string of the scanset
items-records :
    records_of false args 0 0 items
    ≡ record { slot = 65; ordinal = 1; mode = Mode.wide_count; width = 12 }
      ∷ record { slot = 64; ordinal = 2; mode = Mode.char_string; width = 0 }
      ∷ []
items-records = refl

parse-print_example :
    Notes allocator false args items no_plan heap
      (parse_scanf_format allocator (print items) args no_plan heap)
    × Notes allocator true args items no_plan heap
        (parse_wscanf_format allocator (print items) args no_plan heap)
parse-print_example = parse-print allocator args items no_plan heap items-AllItems

plan_push_lem_example :
    ((plan_push allocator no_plan noted heap).0 ≡ false)
      × ((plan_push allocator no_plan noted heap).1.0 ≡ no_plan)
      × (length no_plan.records ≡ no_plan.capacity)
      × ((move_block 0 (8 * record_size) heap).0 ≡ 0)
    ⊎ Pushes allocator no_plan noted heap (plan_push allocator no_plan noted heap)
plan_push_lem_example =
    plan_push_lem allocator no_plan noted heap (record { fits = omega arith }) (omega arith)
