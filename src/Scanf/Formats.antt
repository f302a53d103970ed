-- ===== src/Scanf/Formats.antt =====
-- Formats as what they mean: literal characters and conversions, how they are written, and which
-- stores of pointers the parsers of src/scanf_overrides.c have to note for them.
pub mod Fields
pub mod Converts
pub mod Rounds
pub mod Whole
use libc_override.Base.{
  ℕ, ◌+◌, ◌-◌, ◌%◌, ◌^◌, ◌≡◌, ◌≢◌, Bool, true, false, not, ◌&&◌, List, [], ◌∷◌, ◌++◌, ◌==◌,
  if◌then◌else◌,
}
use libc_override.Scanf.Ascii
use libc_override.Scanf.Numbers.{digits, decimal, saturate, AllDecimal}
use libc_override.Scanf.Plan.{Size, Mode, Record, Plan, Allocator, plan_push}
use libc_override.Scanf.Parse.{Parsed, parsed, failed}
use libc_override.Scanf.Printed.{Modifier, print_modifier, print_if, size_of}
use libc_override.Scanf.Scansets.{AllPlain}

-- the conversions of numbers and pointers
pub data Number : Type 0 where
  lower_d lower_i lower_o lower_u lower_x upper_x lower_a lower_e lower_f lower_g : Number
  upper_a upper_e upper_f upper_g lower_p : Number

abbrev pub number_char : Number → ℕ
number_char lower_d = b'd'
number_char lower_i = b'i'
number_char lower_o = b'o'
number_char lower_u = b'u'
number_char lower_x = b'x'
number_char upper_x = b'X'
number_char lower_a = b'a'
number_char lower_e = b'e'
number_char lower_f = b'f'
number_char lower_g = b'g'
number_char upper_a = b'A'
number_char upper_e = b'E'
number_char upper_f = b'F'
number_char upper_g = b'G'
number_char lower_p = b'p'

-- what a conversion reads; a scanset may be negated and may start with a bracket
pub data Spec : Type 0 where
  number : Number → Spec
  count chars string wide_chars wide_string : Spec
  scanset : (negated bracket : Bool) (c : ℕ) (body : List ℕ) → Spec

abbrev pub print_spec : Spec → List ℕ → List ℕ
print_spec (number n) rest = number_char n ∷ rest
print_spec count rest = b'n' ∷ rest
print_spec chars rest = b'c' ∷ rest
print_spec string rest = b's' ∷ rest
print_spec wide_chars rest = b'C' ∷ rest
print_spec wide_string rest = b'S' ∷ rest
print_spec (scanset negated bracket c body) rest =
    b'['
    ∷ print_if negated Ascii.caret
        (print_if bracket Ascii.close_bracket ((c ∷ body) ++ (Ascii.close_bracket ∷ rest)))

-- where a conversion stores: nowhere, at the next argument, or at the one of a number
pub data Place : Type 0 where
  nowhere here : Place
  nth : (digit : ℕ) (digits : List ℕ) → Place

abbrev pub print_place : Place → List ℕ → List ℕ
print_place nowhere rest = Ascii.star ∷ rest
print_place here rest = rest
print_place (nth d ds) rest = digits (d ∷ ds) ++ (Ascii.dollar ∷ rest)

pub record Field : Type 0 where
  pub place : Place
  pub width : List ℕ
  pub alloc : Bool
  pub modifier : Modifier
  pub spec : Spec

pub data Item : Type 0 where
  text : ℕ → Item
  percent_sign : Item
  field : Field → Item

abbrev pub print_field : Field → List ℕ → List ℕ
print_field f rest = print_place f.place (
    digits f.width
    ++ print_if f.alloc Ascii.lower_m (print_modifier f.modifier (print_spec f.spec rest)))

abbrev pub print_item : Item → List ℕ → List ℕ
print_item (text c) rest = c ∷ rest
print_item percent_sign rest = Ascii.percent ∷ Ascii.percent ∷ rest
print_item (field f) rest = Ascii.percent ∷ print_field f rest

abbrev pub print : List Item → List ℕ
print [] = []
print (x ∷ xs) = print_item x (print xs)

-- Written so, an item reads as what it is: digits are digits, a number of an argument is not 0 as an
-- `unsigned int`, and no character of a scanset but its last closes it.
abbrev pub IsPlace : Place → Type 0
IsPlace (nth d ds) = AllDecimal (d ∷ ds) × ((decimal 0 (d ∷ ds) % 2 ^ 32 == 0) ≡ false)
IsPlace _ = Unit {0}

abbrev pub IsScanset : Spec → Type 0
IsScanset (scanset negated bracket c body) = AllPlain (c ∷ body) × (c ≢ Ascii.caret)
IsScanset _ = Unit {0}

abbrev pub IsItem : Item → Type 0
IsItem (text c) = (c ≢ 0) × (c ≢ Ascii.percent)
IsItem percent_sign = Unit {0}
IsItem (field f) = IsPlace f.place × AllDecimal f.width × IsScanset f.spec

abbrev pub AllItems : List Item → Type 0
AllItems [] = Unit {0}
AllItems (x ∷ xs) = IsItem x × AllItems xs

-- the argument that is stored to, and the next one
abbrev pub dest_of : (ℕ → ℕ) → ℕ → Place → ℕ
dest_of args next nowhere = 0
dest_of args next here = args next
dest_of args next (nth d ds) = args (next + (decimal 0 (d ∷ ds) % 2 ^ 32 - 1))

abbrev pub next_of : ℕ → Place → ℕ
next_of next here = next + 1
next_of next _ = next

-- the input of the function is wide, or not; the conversion is
abbrev pub string_mode : Size → Mode
string_mode Size.l = Mode.wide_string
string_mode Size.def = Mode.char_string

abbrev pub chars_mode : (wide : Bool) → Size → Mode
chars_mode wide Size.l = Mode.wide_count
chars_mode true Size.def = Mode.unsupported_wide_char_count
chars_mode false Size.def = Mode.char_count

-- what is noted of a store to `slot`: the characters of `%mc` are counted, and one by default
abbrev pub noted : (wide : Bool) → (slot ordinal width : ℕ) → Modifier → Spec → List Record
noted wide slot ordinal width m (number n) = []
noted wide slot ordinal width m count = []
noted wide slot ordinal width m chars =
    record {
      slot = slot;
      ordinal = ordinal;
      mode = chars_mode wide (size_of m);
      width = if width == 0 then 1 else width;
    }
    ∷ []
noted wide slot ordinal width m wide_chars =
    record {
      slot = slot;
      ordinal = ordinal;
      mode = Mode.wide_count;
      width = if width == 0 then 1 else width;
    }
    ∷ []
noted wide slot ordinal width m string =
    record { slot = slot; ordinal = ordinal; mode = string_mode (size_of m); width = width } ∷ []
noted wide slot ordinal width m wide_string =
    record { slot = slot; ordinal = ordinal; mode = Mode.wide_string; width = width } ∷ []
noted wide slot ordinal width m (scanset negated bracket c body) =
    record { slot = slot; ordinal = ordinal; mode = string_mode (size_of m); width = width } ∷ []

-- only where there is an `m` and the argument is not null
abbrev pub noted_if : (alloc : Bool) → (slot : ℕ) → List Record → List Record
noted_if true slot rs = if slot == 0 then [] else rs
noted_if false slot rs = []

abbrev pub noted_of : (wide : Bool) → (ℕ → ℕ) → (next ordinal : ℕ) → Field → List Record
noted_of wide args next ordinal f =
    let slot = dest_of args next f.place in
    noted_if f.alloc slot
      (noted wide slot ((ordinal + 1) % 2 ^ 32) (saturate (decimal 0 f.width)) f.modifier f.spec)

abbrev pub is_nowhere : Place → Bool
is_nowhere nowhere = true
is_nowhere here = false
is_nowhere (nth d ds) = false

abbrev pub matches : Spec → Bool
matches count = false
matches spec = true

-- what counts as a match: all that is stored, but for `%n`
abbrev pub ordinal_of : ℕ → Place → Spec → ℕ
ordinal_of ordinal place spec =
    if not (is_nowhere place) && matches spec then (ordinal + 1) % 2 ^ 32 else ordinal

-- the records of a format, in their order
abbrev pub records_of : (wide : Bool) → (ℕ → ℕ) → (next ordinal : ℕ) → List Item → List Record
records_of wide args next ordinal [] = []
records_of wide args next ordinal (field f ∷ xs) =
    noted_of wide args next ordinal f
    ++ records_of wide args (next_of next f.place) (ordinal_of ordinal f.place f.spec) xs
records_of wide args next ordinal (x ∷ xs) = records_of wide args next ordinal xs

module _ (A : Allocator) where
  -- the records are pushed one after the other, up to the first that finds no room
  pub push_then : List Record → Plan → A.Mem → (Plan → A.Mem → Parsed A) → Parsed A
  push_then [] plan mem k = k plan mem
  push_then (r ∷ rs) plan mem k =
      let (ok, (plan', mem')) = plan_push A plan r mem in
      if ok then push_then rs plan' mem' k else (failed, (plan', mem'))

  abbrev pub push_all : List Record → Plan → A.Mem → Parsed A
  push_all rs plan mem = push_then rs plan mem (λ plan' mem'. (parsed, (plan', mem')))
