-- ===== src/Scanf/Ordinals.antt =====
-- The ordinals that the parser notes, and its progress.
use Prim.Native.Nat.{bit_and, bit_or}
use libc_override.Base.{
  ℕ, ◌+◌, ◌≤◌, ◌<◌, ◌^◌, ◌%◌, ◌≡◌, ◌≢◌, refl, sym, Bool, true, false, ◌&&◌, ◌||◌, not, List, [],
  ◌∷◌, ◌++◌, length, arith, if◌then◌else◌, Bool-cases, inl, inr, ◌==◌, mul_word,
}
use mathlib.Core.Path.{subst}
use libc_override.Scanf.Ascii
use libc_override.Scanf.Chars.{peek, skip, skip_scanset_char}
use libc_override.Scanf.Lengths.{skip-lt, scanset-length, directive-length}
use libc_override.Scanf.Parse.{
  Directive, Parser, Round, goes_on, ends, record_m_conversion, convert, directive, round,
}
use libc_override.Scanf.Plan.{Allocator, record_size, Size, Mode, Record, Plan, plan_push}

-- the ordinals rise, from above `low` up to `high` at most, and each record has a slot
abbrev pub Rising : ℕ → List Record → ℕ → Type 0
Rising low [] high = low ≤ high
Rising low (r ∷ rs) high = (low < r.ordinal) × ((r.slot ≢ 0) × Rising r.ordinal rs high)

Rising-mono :
    (rs : List Record) (low : ℕ) {high high' : ℕ}
    → Rising low rs high
    → high ≤ high'
    → Rising low rs high'
Rising-mono [] low h le = omega arith
Rising-mono (r ∷ rs) low (lt, (slot, h)) le = (lt, (slot, Rising-mono rs r.ordinal h le))

Rising-append :
    (rs : List Record) (r : Record) (low : ℕ) {high : ℕ}
    → Rising low rs high
    → high < r.ordinal
    → r.slot ≢ 0
    → Rising low (rs ++ (r ∷ [])) r.ordinal
Rising-append [] r low h lt slot = (omega arith, (slot, omega arith))
Rising-append (q ∷ rs) r low (at, (slot_q, h)) lt slot =
    (at, (slot_q, Rising-append rs r q.ordinal h lt slot))

module _ (A : Allocator) where
  -- what noting a record `r` does to the records
  data Notes (plan : Plan) (r : Record) : Bool × (Plan × A.Mem) → Type 0 where
    kept :
        {ok : Bool} {plan' : Plan} {mem : A.Mem}
        → plan'.records ≡ plan.records
        → Notes plan r (ok, (plan', mem))
    added :
        {plan' : Plan} {mem : A.Mem}
        → plan'.records ≡ plan.records ++ (r ∷ [])
        → r.slot ≢ 0
        → Notes plan r (true, (plan', mem))

  plan_push-Notes :
      (plan : Plan) (r : Record) (mem : A.Mem) → r.slot ≢ 0 → Notes plan r (plan_push A plan r mem)
  unfolding plan_push
  plan_push-Notes plan r mem slot = elim (Bool-cases (length plan.records == plan.capacity)) [
    | inl full ↦
        let new_capacity = if plan.capacity == 0 then 8 else mul_word plan.capacity 2 in
        rw full
          (grown new_capacity (A.realloc plan.address (mul_word new_capacity record_size) mem))
    | inr room ↦ rw room (added refl slot)
  ]
    where
      grown :
          (n : ℕ) (x : ℕ × A.Mem)
          → Notes plan r (
              if x.0 == 0 then (false, (plan, x.1)) else (
                true,
                (record { address = x.0; records = plan.records ++ (r ∷ []); capacity = n }, x.1),
              ))
      grown n x = elim (Bool-cases (x.0 == 0)) [
        | inl e ↦ rw e (kept refl)
        | inr e ↦ rw e (added refl slot)
      ]

  record_m-Notes :
      (mode_of : Size → ℕ → Mode) (plan : Plan) (dest ordinal : ℕ) (size : Size) (spec width : ℕ)
      (mem : A.Mem)
      → Notes plan
          (record { slot = dest; ordinal = ordinal; mode = mode_of size spec; width = width })
          (record_m_conversion A mode_of plan dest ordinal size spec width mem)
  unfolding record_m_conversion
  record_m-Notes mode_of plan dest ordinal size spec width mem = elim (Bool-cases (dest == 0)) [
    | inl e ↦ rw e (kept refl)
    | inr e ↦ rw e (plan_push-Notes plan _ mem (ground arith))
  ]

  -- what a round does to the parser's progress
  abbrev pub After : Parser A → Round A → Type 0
  After s (goes_on t) =
      (length t.cursor < length s.cursor)
      × (t.ordinal + length t.cursor ≤ s.ordinal + length s.cursor)
      × Rising 0 t.plan.records t.ordinal
  After s (ends ok plan mem) = Rising 0 plan.records s.ordinal

  module _ (s : Parser A) (rising : Rising 0 s.plan.records s.ordinal)
      (small : s.ordinal + length s.cursor < 2 ^ 32) where
    low : s.ordinal + 1 < 2 ^ 32 → (s.ordinal + 1) % 2 ^ 32 ≡ s.ordinal + 1
    low h = omega arith

    -- the end of a conversion that may note a record
    noted :
        (p : List ℕ) (next : ℕ) (r : Record) (x : Bool × (Plan × A.Mem))
        → r.ordinal ≡ (s.ordinal + 1) % 2 ^ 32
        → length p + 1 < length s.cursor
        → Notes s.plan r x
        → After s (
            if x.0
            then goes_on (record {
              cursor = p;
              next = next;
              ordinal = (s.ordinal + 1) % 2 ^ 32;
              plan = x.1.0;
              mem = x.1.1;
            })
            else ends false x.1.0 x.1.1)
    noted p next r x is shorter (kept {ok = false} same) =
        subst (λ rs. Rising 0 rs s.ordinal) (sym same) rising
    noted p next r x is shorter (kept {ok = true} same) = (
      omega arith,
      omega arith,
      subst (λ rs. Rising 0 rs ((s.ordinal + 1) % 2 ^ 32)) (sym same)
          (Rising-mono s.plan.records 0 rising (omega arith)),
    )
    noted p next r x is shorter (added new slot) = (
      omega arith,
      omega arith,
      subst (λ rs. Rising 0 rs ((s.ordinal + 1) % 2 ^ 32)) (sym new)
          (subst (Rising 0 (s.plan.records ++ (r ∷ []))) is
            (Rising-append s.plan.records r 0 rising (omega arith) slot)),
    )

    -- the end of one that does not
    passed :
        (b : Bool) (p : List ℕ) (next : ℕ)
        → length p + 1 < length s.cursor
        → After s (
            goes_on (record {
              cursor = p;
              next = next;
              ordinal = if b then (s.ordinal + 1) % 2 ^ 32 else s.ordinal;
              plan = s.plan;
              mem = s.mem;
            }))
    passed b p next shorter =
        (omega arith, ground arith, Rising-mono s.plan.records 0 rising (ground arith))

    -- a round over plain text
    walked : (p : List ℕ) → length p < length s.cursor → After s (goes_on (record s { cursor = p }))
    walked p shorter = (shorter, omega arith, rising)

    convert-After :
        (mode_of : Size → ℕ → Mode) (d : Directive)
        → peek d.cursor ≢ 0
        → length d.cursor < length s.cursor
        → After s (convert A mode_of d s)
    unfolding convert
    convert-After mode_of d ne shorter =
        let shifted = bit_and (peek d.cursor) 47 == 3 in
        let spec = if shifted then bit_or (peek d.cursor) 32 else peek d.cursor in
        let size = if shifted then Size.l else d.size in
        let width = if (spec == Ascii.lower_c) && (d.width == 0) then 1 else d.width in
        let wanted =
          d.alloc
          && (not d.target.suppressed
              && ((spec == Ascii.lower_s)
                  || ((spec == Ascii.lower_c) || (spec == Ascii.open_bracket)))) in
        let p =
          if spec == Ascii.open_bracket then skip_scanset_char (skip d.cursor) else skip d.cursor in
        let less : length p + 1 < length s.cursor =
          ground (arith, scanset-length (skip d.cursor), skip-lt d.cursor ne) in
        elim (Bool-cases wanted) [
          | inl e ↦
              let counts : (not d.target.suppressed && not (spec == Ascii.lower_n)) ≡ true =
                ground arith in
              rw (e, counts)
                (noted p d.target.next _ _ refl less (
                  record_m-Notes mode_of s.plan d.target.dest ((s.ordinal + 1) % 2 ^ 32) size spec
                    width s.mem))
          | inr e ↦
              rw e (
                passed (not d.target.suppressed && not (spec == Ascii.lower_n)) p d.target.next
                  less)
        ]

    -- A round keeps the ordinals rising, and moves the cursor on.
    pub round-After :
        (mode_of : Size → ℕ → Mode) (args : ℕ → ℕ)
        → peek s.cursor ≢ 0
        → After s (round A mode_of args s)
    unfolding round
    round-After mode_of args ne =
        let p = skip s.cursor in
        let d = directive args s.next p in
        let less = skip-lt s.cursor ne in
        let less' = directive-length args s.next p in
        elim (Bool-cases (peek s.cursor == Ascii.percent)) [
          | inr e ↦ rw e (walked p less)
          | inl e ↦ rw e (elim (Bool-cases (peek p == Ascii.percent)) [
            | inl e' ↦ rw e' (walked (skip p) (omega (arith, less, skip-lt p (ground arith))))
            | inr e' ↦ rw e' (elim (Bool-cases (peek d.cursor == 0)) [
              | inl e'' ↦ rw e'' rising
              | inr e'' ↦ rw e'' (convert-After mode_of d (ground arith) (omega arith))
            ])
          ])
        ]
