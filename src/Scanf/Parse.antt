-- ===== src/Scanf/Parse.antt =====
-- The parser of src/scanf_overrides.c: it walks over a format and the arguments as `scanf` will, and
-- notes where each `%m` conversion stores its pointer. The two parsers differ in one mode only.
-- The `va_list` is the arguments by their number, all of them pointers, and the number of the next.
use Prim.Native.Nat.{bit_and, bit_or}
use libc_override.Base.{
  ℕ, zero, suc, ◌+◌, ◌-◌, ◌%◌, ◌^◌, Bool, true, false, ◌&&◌, ◌||◌, not, List, length, ◌==◌,
  if◌then◌else◌,
}
use libc_override.Scanf.Ascii
use libc_override.Scanf.Chars.{
  peek, skip, skip_if, is_digit, parse_width_char, parse_position_char, skip_scanset_char,
}
use libc_override.Scanf.Plan.{
  Allocator, Size, Mode, Plan, plan_push, char_string, wide_string, char_count, wide_count,
  unsupported_wide_char_count,
}

-- `ao_arg_n`, from the arguments that are left behind `next`
unfoldable pub arg_n : (ℕ → ℕ) → (next n : ℕ) → ℕ
arg_n args next n = args (next + (n - 1))

abbrev by_size : {X : Type 0} → Size → X → X → X
by_size Size.l x y = x
by_size Size.def x y = y

-- the modes of `ao_record_narrow_m_conversion` and of `ao_record_wide_m_conversion`
unfoldable pub narrow_mode : Size → ℕ → Mode
narrow_mode size spec =
    if spec == Ascii.lower_c
    then by_size size wide_count char_count
    else by_size size wide_string char_string

unfoldable pub wide_mode : Size → ℕ → Mode
wide_mode size spec =
    if spec == Ascii.lower_c
    then by_size size wide_count unsupported_wide_char_count
    else by_size size wide_string char_string

-- how a parser ends: with the C result 0, with -1, or not at all in the rounds that it is given
pub data Status : Type 0 where
  parsed failed no_rounds : Status

abbrev pub status : Bool → Status
status true = parsed
status false = failed

abbrev pub is_parsed : Status → Bool
is_parsed parsed = true
is_parsed _ = false

-- where a conversion stores, and the cursor and arguments behind that choice
pub record Target : Type 0 where
  pub suppressed : Bool
  pub dest : ℕ
  pub cursor : List ℕ
  pub next : ℕ

unfoldable pub target : (ℕ → ℕ) → ℕ → List ℕ → Target
target args next p =
    let position = parse_position_char p in
    if peek p == Ascii.star
    then record { suppressed = true; dest = 0; cursor = skip p; next = next }
    else if position.accepted
    then record {
      suppressed = false;
      dest = arg_n args next position.position;
      cursor = position.cursor;
      next = next;
    }
    else record { suppressed = false; dest = args next; cursor = position.cursor; next = next + 1 }

-- the length modifier, and the cursor behind it
unfoldable pub modifier : List ℕ → Size × List ℕ
modifier p =
    let c = peek p in
    if c == Ascii.lower_l
    then (if peek (skip p) == Ascii.lower_l then (Size.def, skip (skip p)) else (Size.l, skip p))
    else if (c == Ascii.lower_h)
        || ((c == Ascii.lower_j)
            || ((c == Ascii.lower_z) || ((c == Ascii.lower_t) || (c == Ascii.upper_l))))
    then (Size.def, skip (skip_if ((c == Ascii.lower_h) && (peek (skip p) == Ascii.lower_h)) p))
    else (Size.def, p)

-- what stands between a `%` and its conversion character
pub record Directive : Type 0 where
  pub target : Target
  pub width : ℕ
  pub alloc : Bool
  pub size : Size
  pub cursor : List ℕ

unfoldable pub directive : (ℕ → ℕ) → ℕ → List ℕ → Directive
directive args next p =
    let t = target args next p in
    let (width, p) =
      if is_digit (peek t.cursor) then parse_width_char t.cursor else (0, t.cursor) in
    let alloc = peek p == Ascii.lower_m in
    let (size, p) = modifier (skip_if alloc p) in
    record { target = t; width = width; alloc = alloc; size = size; cursor = p }

module _ (A : Allocator) where
  unfoldable pub record_m_conversion :
      (Size → ℕ → Mode)
      → Plan
      → (dest ordinal : ℕ) → Size
      → (spec width : ℕ) → A.Mem
      → Bool × (Plan × A.Mem)
  record_m_conversion mode_of plan dest ordinal size spec width mem =
      if dest == 0
      then (true, (plan, mem))
      else plan_push A plan
          (record { slot = dest; ordinal = ordinal; mode = mode_of size spec; width = width }) mem

  -- the parser's variables between two rounds of its loop
  pub record Parser : Type 0 where
    pub cursor : List ℕ
    pub next : ℕ
    pub ordinal : ℕ
    pub plan : Plan
    pub mem : A.Mem

  -- a round goes on or ends the parser, with success or without
  pub data Round : Type 0 where
    goes_on : Parser → Round
    ends : Bool → Plan → A.Mem → Round

  -- the code behind a conversion character
  unfoldable pub convert : (Size → ℕ → Mode) → Directive → Parser → Round
  convert mode_of d s =
      let shifted = bit_and (peek d.cursor) 47 == 3 in
      let spec = if shifted then bit_or (peek d.cursor) 32 else peek d.cursor in
      let size = if shifted then Size.l else d.size in
      let p = skip d.cursor in
      let stored = not d.target.suppressed in
      let wanted =
        d.alloc
        && (stored
            && ((spec == Ascii.lower_s)
                || ((spec == Ascii.lower_c) || (spec == Ascii.open_bracket)))) in
      let width = if (spec == Ascii.lower_c) && (d.width == 0) then 1 else d.width in
      let (ok, (plan, mem)) =
        if wanted
        then record_m_conversion mode_of s.plan d.target.dest ((s.ordinal + 1) % 2 ^ 32) size spec
            width s.mem
        else (true, (s.plan, s.mem)) in
      if ok
      then goes_on (record {
        cursor = if spec == Ascii.open_bracket then skip_scanset_char p else p;
        next = d.target.next;
        ordinal =
            if stored && not (spec == Ascii.lower_n) then (s.ordinal + 1) % 2 ^ 32 else s.ordinal;
        plan = plan;
        mem = mem;
      })
      else ends false plan mem

  -- one round, at a character that is not the NUL
  unfoldable pub round : (Size → ℕ → Mode) → (ℕ → ℕ) → Parser → Round
  round mode_of args s =
      let p = skip s.cursor in
      let d = directive args s.next p in
      if not (peek s.cursor == Ascii.percent)
      then goes_on (record s { cursor = p })
      else if peek p == Ascii.percent
      then goes_on (record s { cursor = skip p })
      else if peek d.cursor == 0
      then ends true s.plan s.mem
      else convert mode_of d s

  abbrev pub Parsed : Type 0
  Parsed = Status × (Plan × A.Mem)

  -- the loop; each round moves the cursor, so that the length of the format bounds their number
  unfoldable pub parse_from : ℕ → (Size → ℕ → Mode) → (ℕ → ℕ) → Parser → Parsed
  parse_from zero mode_of args s =
      (if peek s.cursor == 0 then parsed else no_rounds, (s.plan, s.mem))
  parse_from (suc n) mode_of args s =
      if peek s.cursor == 0 then (parsed, (s.plan, s.mem)) else elim (round mode_of args s) [
        | goes_on s' ↦ parse_from n mode_of args s'
        | ends ok plan mem ↦ (status ok, (plan, mem))
      ]

  unfoldable pub parse_scanf_format : List ℕ → (ℕ → ℕ) → Plan → A.Mem → Parsed
  parse_scanf_format format args plan mem =
      parse_from (length format) narrow_mode args
        (record { cursor = format; next = 0; ordinal = 0; plan = plan; mem = mem })

  unfoldable pub parse_wscanf_format : List ℕ → (ℕ → ℕ) → Plan → A.Mem → Parsed
  parse_wscanf_format format args plan mem =
      parse_from (length format) wide_mode args
        (record { cursor = format; next = 0; ordinal = 0; plan = plan; mem = mem })
