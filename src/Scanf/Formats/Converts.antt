-- ===== src/Scanf/Formats/Converts.antt =====
-- The parsers of src/scanf_overrides.c at the character of a conversion that was read.
use Prim.Native.Nat.{bit_and}
use libc_override.Base.{
  ℕ, suc, ◌+◌, ◌%◌, ◌^◌, ◌≡◌, refl, ◌∙◌, Bool, true, false, not, ◌&&◌, List, [], ◌∷◌, ◌++◌, ◌==◌,
  if◌then◌else◌, arith, Bool-cases, inl, inr,
}
use libc_override.Scanf.Ascii
use libc_override.Scanf.Chars.{peek}
use libc_override.Scanf.Plan.{Size, Mode, Record, Plan, Allocator, plan_push}
use libc_override.Scanf.Parse.{
  narrow_mode, wide_mode, Directive, record_m_conversion, Parser, Round, goes_on, ends, convert,
  round, Parsed, parse_from, status,
}
use libc_override.Scanf.Printed.{Modifier, size_of}
use libc_override.Scanf.Scansets.{scanset-print}
use libc_override.Scanf.Formats.{
  Number, number_char, Spec, number, count, chars, string, wide_chars, wide_string, scanset,
  print_spec, IsScanset, noted, noted_if, chars_mode, string_mode, matches, push_then,
}

abbrev pub mode_of : (wide : Bool) → Size → ℕ → Mode
mode_of true = wide_mode
mode_of false = narrow_mode

-- the character of a number is none that the parser looks for
abbrev pub IsPlain : ℕ → Type 0
IsPlain c =
    ((bit_and c 47 == 3) ≡ false)
    × ((c == Ascii.lower_s) ≡ false)
    × ((c == Ascii.lower_c) ≡ false)
    × ((c == Ascii.open_bracket) ≡ false)
    × ((c == Ascii.lower_n) ≡ false)
    × ((c == Ascii.percent) ≡ false)
    × ((c == 0) ≡ false)

pub number-IsPlain : (n : Number) → IsPlain (number_char n)
number-IsPlain Number.lower_d = (refl, refl, refl, refl, refl, refl, refl)
number-IsPlain Number.lower_i = (refl, refl, refl, refl, refl, refl, refl)
number-IsPlain Number.lower_o = (refl, refl, refl, refl, refl, refl, refl)
number-IsPlain Number.lower_u = (refl, refl, refl, refl, refl, refl, refl)
number-IsPlain Number.lower_x = (refl, refl, refl, refl, refl, refl, refl)
number-IsPlain Number.upper_x = (refl, refl, refl, refl, refl, refl, refl)
number-IsPlain Number.lower_a = (refl, refl, refl, refl, refl, refl, refl)
number-IsPlain Number.lower_e = (refl, refl, refl, refl, refl, refl, refl)
number-IsPlain Number.lower_f = (refl, refl, refl, refl, refl, refl, refl)
number-IsPlain Number.lower_g = (refl, refl, refl, refl, refl, refl, refl)
number-IsPlain Number.upper_a = (refl, refl, refl, refl, refl, refl, refl)
number-IsPlain Number.upper_e = (refl, refl, refl, refl, refl, refl, refl)
number-IsPlain Number.upper_f = (refl, refl, refl, refl, refl, refl, refl)
number-IsPlain Number.upper_g = (refl, refl, refl, refl, refl, refl, refl)
number-IsPlain Number.lower_p = (refl, refl, refl, refl, refl, refl, refl)

either : (b : Bool) → let nothing : List Record = [] in (if b then nothing else nothing) ≡ nothing
either true = refl
either false = refl

module _ (A : Allocator) where
  -- a round, with what follows it
  unfoldable pub settle : Round A → (Parser A → Parsed A) → Parsed A
  settle (goes_on s) k = k s
  settle (ends ok plan mem) k = (status ok, (plan, mem))

  elim-settle :
      (r : Round A) (k : Parser A → Parsed A)
      → (elim r [ goes_on s ↦ k s | ends ok plan mem ↦ (status ok, (plan, mem)) ]) ≡ settle r k
  unfolding settle
  elim-settle (goes_on s) k = refl
  elim-settle (ends ok plan mem) k = refl

  pub parse_from-step :
      (n : ℕ) (mode : Size → ℕ → Mode) (args : ℕ → ℕ) (s : Parser A)
      → (peek s.cursor == 0) ≡ false
      → parse_from A (suc n) mode args s ≡ settle (round A mode args s) (parse_from A n mode args)
  unfolding parse_from
  parse_from-step n mode args s e =
      rw e (elim-settle (round A mode args s) (parse_from A n mode args))

  pub push_then-append :
      (xs ys : List Record) (plan : Plan) (mem : A.Mem) (k : Plan → A.Mem → Parsed A)
      → push_then A (xs ++ ys) plan mem k
        ≡ push_then A xs plan mem (λ plan' mem'. push_then A ys plan' mem' k)
  unfolding push_then
  push_then-append [] ys plan mem k = refl
  push_then-append (r ∷ xs) ys plan mem k = elim (Bool-cases (plan_push A plan r mem).0) [
    | inl e ↦
        rw e (push_then-append xs ys (plan_push A plan r mem).1.0 (plan_push A plan r mem).1.1 k)
    | inr e ↦ rw e
  ]

  -- the parser behind a conversion
  abbrev pub behind : ℕ → ℕ → List ℕ → Plan → A.Mem → Parser A
  behind next ordinal rest plan mem = record {
    cursor = rest;
    next = next;
    ordinal = ordinal;
    plan = plan;
    mem = mem;
  }

  -- a record that is pushed for a conversion
  settle-push :
      (mode : Size → ℕ → Mode) (slot ordinal : ℕ) (size : Size) (spec width : ℕ) (s : Parser A)
      (next : ℕ) (rest : List ℕ) (k : Parser A → Parsed A) (m : Mode)
      → mode size spec ≡ m
      → settle
          (let (ok, (plan, mem)) =
              record_m_conversion A mode s.plan slot ordinal size spec width s.mem in
            if ok then goes_on (behind next ordinal rest plan mem) else ends false plan mem)
          k
        ≡ push_then A
            (if slot == 0
              then []
              else record { slot = slot; ordinal = ordinal; mode = m; width = width } ∷ [])
            s.plan
            s.mem
            (λ plan mem. k (behind next ordinal rest plan mem))
  unfolding settle push_then record_m_conversion
  settle-push mode slot ordinal size spec width s next rest k m e = elim (Bool-cases (slot == 0)) [
    | inl null ↦ rw null
    | inr there ↦
        rw (there, e)
          (elim (Bool-cases
            (plan_push A s.plan (record { slot = slot; ordinal = ordinal; mode = m; width = width })
              s.mem).0) [ inl ok ↦ rw ok | inr full ↦ rw full ])
  ]

  chars-mode : (wide : Bool) (size : Size) → mode_of wide size Ascii.lower_c ≡ chars_mode wide size
  unfolding narrow_mode wide_mode
  chars-mode true Size.l = refl
  chars-mode true Size.def = refl
  chars-mode false Size.l = refl
  chars-mode false Size.def = refl

  string-mode :
      (wide : Bool) (size : Size) (c : ℕ)
      → (c == Ascii.lower_c) ≡ false
      → mode_of wide size c ≡ string_mode size
  unfolding narrow_mode wide_mode
  string-mode true Size.l c e = rw e refl
  string-mode true Size.def c e = rw e refl
  string-mode false Size.l c e = rw e refl
  string-mode false Size.def c e = rw e refl

  module _ (wide : Bool) (slot next width : ℕ) (cursor : List ℕ) (m : Modifier) (s : Parser A)
      (rest : List ℕ) (k : Parser A → Parsed A) where
    -- what the parser has read of a field
    abbrev pub read : Bool → Bool → Spec → Directive
    read b alloc spec = record {
      target = record { suppressed = b; dest = slot; cursor = cursor; next = next };
      width = width;
      alloc = alloc;
      size = size_of m;
      cursor = print_spec spec rest;
    }

    abbrev pub counted : Bool → Spec → ℕ
    counted b spec = if not b && matches spec then (s.ordinal + 1) % 2 ^ 32 else s.ordinal

    -- no record: no `m`, or nowhere to store
    abbrev pub Quiet : Bool → Bool → Spec → Type 0
    Quiet b alloc spec =
        settle (convert A (mode_of wide) (read b alloc spec) s) k
        ≡ k (behind next (counted b spec) rest s.plan s.mem)

    Quiet-number : (b alloc : Bool) (n : Number) → Quiet b alloc (number n)
    unfolding convert settle
    Quiet-number true true n =
        let (no_shift, no_s, no_c, no_bracket, no_n, no_percent, no_end) = number-IsPlain n in
        rw (no_shift, no_bracket)
    Quiet-number true false n =
        let (no_shift, no_s, no_c, no_bracket, no_n, no_percent, no_end) = number-IsPlain n in
        rw (no_shift, no_bracket)
    Quiet-number false true n =
        let (no_shift, no_s, no_c, no_bracket, no_n, no_percent, no_end) = number-IsPlain n in
        rw (no_shift, no_s, no_c, no_bracket, no_n)
    Quiet-number false false n =
        let (no_shift, no_s, no_c, no_bracket, no_n, no_percent, no_end) = number-IsPlain n in
        rw (no_shift, no_bracket, no_n)

    pub convert-Quiet :
        (b alloc : Bool)
        → alloc && not b ≡ false
        → (spec : Spec) → IsScanset spec
        → Quiet b alloc spec
    unfolding convert settle
    convert-Quiet true true e (number n) is = Quiet-number true true n
    convert-Quiet true true e (scanset negated bracket c body) is =
        rw (scanset-print negated bracket c body rest is.0 is.1)
    convert-Quiet true true e count is = refl
    convert-Quiet true true e chars is = refl
    convert-Quiet true true e string is = refl
    convert-Quiet true true e wide_chars is = refl
    convert-Quiet true true e wide_string is = refl
    convert-Quiet true false e (number n) is = Quiet-number true false n
    convert-Quiet true false e (scanset negated bracket c body) is =
        rw (scanset-print negated bracket c body rest is.0 is.1)
    convert-Quiet true false e count is = refl
    convert-Quiet true false e chars is = refl
    convert-Quiet true false e string is = refl
    convert-Quiet true false e wide_chars is = refl
    convert-Quiet true false e wide_string is = refl
    convert-Quiet false true e spec is = absurd (cc)
    convert-Quiet false false e (number n) is = Quiet-number false false n
    convert-Quiet false false e (scanset negated bracket c body) is =
        rw (scanset-print negated bracket c body rest is.0 is.1)
    convert-Quiet false false e count is = refl
    convert-Quiet false false e chars is = refl
    convert-Quiet false false e string is = refl
    convert-Quiet false false e wide_chars is = refl
    convert-Quiet false false e wide_string is = refl

    -- a record, where there is a place and an `m`
    pub convert-wanted :
        (spec : Spec)
        → IsScanset spec
        → settle (convert A (mode_of wide) (read false true spec) s) k
          ≡ push_then A
              (if slot == 0 then [] else noted wide slot ((s.ordinal + 1) % 2 ^ 32) width m spec)
              s.plan
              s.mem
              (λ plan mem. k (behind next (counted false spec) rest plan mem))
    unfolding convert settle push_then
    convert-wanted (number n) is = rw (either (slot == 0)) (Quiet-number false true n)
    convert-wanted count is = rw (either (slot == 0)) refl
    convert-wanted chars is =
        settle-push (mode_of wide) slot ((s.ordinal + 1) % 2 ^ 32) (size_of m) Ascii.lower_c
          (if width == 0 then 1 else width) s next rest k (chars_mode wide (size_of m))
          (chars-mode wide (size_of m))
    convert-wanted string is =
        settle-push (mode_of wide) slot ((s.ordinal + 1) % 2 ^ 32) (size_of m) Ascii.lower_s width s
          next rest k (string_mode (size_of m)) (string-mode wide (size_of m) Ascii.lower_s refl)
    convert-wanted wide_chars is =
        settle-push (mode_of wide) slot ((s.ordinal + 1) % 2 ^ 32) Size.l Ascii.lower_c
          (if width == 0 then 1 else width) s next rest k Mode.wide_count (chars-mode wide Size.l)
    convert-wanted wide_string is =
        settle-push (mode_of wide) slot ((s.ordinal + 1) % 2 ^ 32) Size.l Ascii.lower_s width s next
          rest k Mode.wide_string (string-mode wide Size.l Ascii.lower_s refl)
    convert-wanted (scanset negated bracket c body) is =
        rw (scanset-print negated bracket c body rest is.0 is.1) (
          settle-push (mode_of wide) slot ((s.ordinal + 1) % 2 ^ 32) (size_of m) Ascii.open_bracket
            width s next rest k (string_mode (size_of m))
            (string-mode wide (size_of m) Ascii.open_bracket refl))

    -- The code behind a conversion character pushes what is to be noted, and goes on behind it.
    pub convert-noted :
        (b alloc : Bool) (spec : Spec)
        → (b ≡ true → slot ≡ 0)
        → IsScanset spec
        → settle (convert A (mode_of wide) (read b alloc spec) s) k
          ≡ push_then A
              (noted_if alloc slot (noted wide slot ((s.ordinal + 1) % 2 ^ 32) width m spec))
              s.plan
              s.mem
              (λ plan mem. k (behind next (counted b spec) rest plan mem))
    unfolding push_then
    convert-noted true true spec null is =
        let nothing : (slot == 0) ≡ true = ground (arith, null refl) in
        convert-Quiet true true refl spec is ∙ rw nothing refl
    convert-noted true false spec null is = convert-Quiet true false refl spec is
    convert-noted false true spec null is = convert-wanted spec is
    convert-noted false false spec null is = convert-Quiet false false refl spec is
