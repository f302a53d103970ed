-- ===== src/Scanf/Loops.antt =====
-- The loop of the parser: its fuel is enough, and its records are in the order of their ordinals.
use libc_override.Base.{
  ℕ, zero, suc, ◌+◌, ◌≤◌, ◌<◌, ◌^◌, ◌≡◌, ◌≢◌, refl, sym, ◌∙◌, true, false, List, [], ◌∷◌, length,
  arith, if◌then◌else◌, Bool-cases, inl, inr, ◌==◌,
}
use libc_override.Scanf.Chars.{peek}
use libc_override.Scanf.Ordinals.{Rising, After, round-After}
use libc_override.Scanf.Parse.{
  Parser, Round, Parsed, goes_on, ends, round, parse_from, parse_scanf_format, parse_wscanf_format,
  narrow_mode, wide_mode, parsed, no_rounds, status,
}
use libc_override.Scanf.Plan.{Allocator, Size, Mode, no_plan}

-- the hypotheses of a round
record Ready {A : Allocator} (s : Parser A) : Type 0 where
  rising : Rising 0 s.plan.records s.ordinal
  small : s.ordinal + length s.cursor < 2 ^ 32

module _ (A : Allocator) (mode_of : Size → ℕ → Mode) (args : ℕ → ℕ) where
  -- what the loop does behind a round
  abbrev follow : (Parser A → Parsed A) → Round A → Parsed A
  follow next (goes_on s) = next s
  follow next (ends ok plan mem) = (status ok, (plan, mem))

  parse_from-suc :
      (n : ℕ) (s : Parser A)
      → parse_from A (suc n) mode_of args s ≡ (
          if peek s.cursor == 0
          then (parsed, (s.plan, s.mem))
          else follow (parse_from A n mode_of args) (round A mode_of args s))
  unfolding parse_from
  parse_from-suc n s = refl

  follow-Rising :
      (s : Parser A) (next : Parser A → Parsed A) (r : Round A)
      → Ready s
      → After A s r
      → ((t : Parser A)
          → Ready t
          → (high : ℕ) × (high ≤ t.ordinal + length t.cursor) × Rising 0 (next t).1.0.records high)
      → (high : ℕ) × (high ≤ s.ordinal + length s.cursor)
        × Rising 0 (follow next r).1.0.records high
  follow-Rising s next (goes_on t) ready (_, le, h) ih =
      let (high, low, r) = ih t (record { rising = h; small = omega (arith, ready.small) }) in
      (high, omega arith, r)
  follow-Rising s next (ends ok plan mem) ready h ih = (s.ordinal, omega arith, h)

  parse_from-Rising :
      (n : ℕ) (s : Parser A)
      → Ready s
      → (high : ℕ) × (high ≤ s.ordinal + length s.cursor)
        × Rising 0 (parse_from A n mode_of args s).1.0.records high
  unfolding parse_from
  parse_from-Rising zero s ready = (s.ordinal, omega arith, ready.rising)
  parse_from-Rising (suc n) s ready = elim (Bool-cases (peek s.cursor == 0)) [
    | inl e ↦ rw (parse_from-suc n s, e) (s.ordinal, omega arith, ready.rising)
    | inr e ↦
        rw (parse_from-suc n s, e)
          (follow-Rising s (parse_from A n mode_of args) (round A mode_of args s) ready
            (round-After A s ready.rising ready.small mode_of args (ground arith))
            (parse_from-Rising n))
  ]

  follow-congr :
      (s : Parser A) (next next' : Parser A → Parsed A) (r : Round A)
      → Ready s
      → After A s r
      → ((t : Parser A) → Ready t → length t.cursor < length s.cursor → next t ≡ next' t)
      → follow next r ≡ follow next' r
  follow-congr s next next' (goes_on t) ready (lt, le, h) ih =
      ih t (record { rising = h; small = omega (arith, ready.small) }) lt
  follow-congr s next next' (ends ok plan mem) ready h ih = refl

  peek-empty : (p : List ℕ) → length p ≤ 0 → peek p ≡ 0
  peek-empty [] h = refl
  peek-empty (c ∷ p) h = absurd (omega arith)

  ended :
      (n : ℕ) (s : Parser A)
      → peek s.cursor ≡ 0
      → parse_from A n mode_of args s ≡ (parsed, (s.plan, s.mem))
  unfolding parse_from
  ended zero s e = rw e refl
  ended (suc n) s e = rw (parse_from-suc n s, e) refl

  parse_from-fuel :
      (n m : ℕ) (s : Parser A)
      → Ready s
      → length s.cursor ≤ n
      → parse_from A (n + m) mode_of args s ≡ parse_from A n mode_of args s
  parse_from-fuel zero m s ready enough =
      ended (0 + m) s (peek-empty s.cursor enough) ∙ sym (ended 0 s (peek-empty s.cursor enough))
  parse_from-fuel (suc n) m s ready enough = elim (Bool-cases (peek s.cursor == 0)) [
    | inl e ↦ ended (suc n + m) s (ground arith) ∙ sym (ended (suc n) s (ground arith))
    | inr e ↦
        let more : suc n + m ≡ suc (n + m) = omega arith in
        rw (more, parse_from-suc (n + m) s, parse_from-suc n s, e)
          (follow-congr s (parse_from A (n + m) mode_of args) (parse_from A n mode_of args)
            (round A mode_of args s) ready
            (round-After A s ready.rising ready.small mode_of args (ground arith))
            (λ t ready_t lt. parse_from-fuel n m t ready_t (omega arith)))
  ]

  follow-ends :
      (s : Parser A) (next : Parser A → Parsed A) (r : Round A)
      → Ready s
      → After A s r
      → ((t : Parser A) → Ready t → length t.cursor < length s.cursor → (next t).0 ≢ no_rounds)
      → (follow next r).0 ≢ no_rounds
  follow-ends s next (goes_on t) ready (lt, le, h) ih =
      ih t (record { rising = h; small = omega (arith, ready.small) }) lt
  follow-ends s next (ends true plan mem) ready h ih = λ e. cc
  follow-ends s next (ends false plan mem) ready h ih = λ e. cc

  -- the loop ends by its own test, or by a round that ends it
  parse_from-ends :
      (n : ℕ) (s : Parser A)
      → Ready s
      → length s.cursor ≤ n
      → (parse_from A n mode_of args s).0 ≢ no_rounds
  parse_from-ends zero s ready enough = rw (ended 0 s (peek-empty s.cursor enough)) (λ e. cc)
  parse_from-ends (suc n) s ready enough = elim (Bool-cases (peek s.cursor == 0)) [
    | inl e ↦ rw (ended (suc n) s (ground arith)) (λ e. cc)
    | inr e ↦
        rw (parse_from-suc n s, e)
          (follow-ends s (parse_from A n mode_of args) (round A mode_of args s) ready
            (round-After A s ready.rising ready.small mode_of args (ground arith))
            (λ t ready_t lt. parse_from-ends n t ready_t (omega arith)))
  ]

-- a result, which is also what more rounds give
abbrev pub Ends : (A : Allocator) → (result more : Parsed A) → Type 0
Ends A result more = (result.0 ≢ no_rounds) × (result ≡ more)

-- the parser as it starts
abbrev pub start : {A : Allocator} → List ℕ → A.Mem → Parser A
start format mem = record { cursor = format; next = 0; ordinal = 0; plan = no_plan; mem = mem }

start-Ready :
    {A : Allocator} (format : List ℕ) (mem : A.Mem)
    → length format < 2 ^ 32
    → Ready (start {A = A} format mem)
start-Ready format mem small = record { rising = omega arith; small = omega (arith, small) }

module _ (A : Allocator) (format : List ℕ) (args : ℕ → ℕ) (mem : A.Mem)
    (small : length format < 2 ^ 32) where
  -- Both parsers note records in the strict order of their ordinals, which are positive and at most
  -- the length of the format, each with a slot that is not `NULL`.
  pub parse-Rising :
      ((high : ℕ) × (high ≤ length format)
        × Rising 0 (parse_scanf_format A format args no_plan mem).1.0.records high)
      × ((high : ℕ) × (high ≤ length format)
          × Rising 0 (parse_wscanf_format A format args no_plan mem).1.0.records high)
  unfolding parse_scanf_format parse_wscanf_format
  parse-Rising =
      let (high, le, r) =
        parse_from-Rising A narrow_mode args (length format) _ (start-Ready format mem small) in
      let (high', le', r') =
        parse_from-Rising A wide_mode args (length format) _ (start-Ready format mem small) in
      ((high, omega arith, r), (high', omega arith, r'))

  -- Both parsers end within the rounds that they are given, with or without success, and further
  -- rounds change nothing.
  pub parse-fuel :
      (extra : ℕ)
      → Ends A
          (parse_scanf_format A format args no_plan mem)
          (parse_from A (length format + extra) narrow_mode args (start format mem))
        × Ends A
            (parse_wscanf_format A format args no_plan mem)
            (parse_from A (length format + extra) wide_mode args (start format mem))
  unfolding parse_scanf_format parse_wscanf_format
  parse-fuel extra =
      let ready = start-Ready {A = A} format mem small in
      (
        (
          parse_from-ends A narrow_mode args (length format) _ ready (omega arith),
          sym (parse_from-fuel A narrow_mode args (length format) extra _ ready (omega arith)),
        ),
        (
          parse_from-ends A wide_mode args (length format) _ ready (omega arith),
          sym (parse_from-fuel A wide_mode args (length format) extra _ ready (omega arith)),
        ),
      )
