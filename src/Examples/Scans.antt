-- ===== src/Examples/Scans.antt =====
-- The theorems on the scanf overrides, at the format `%ms,%*d%5mc` and at one moved string.
use libc_override.Base.{
  none, ℕ, ◌+◌, ◌≡◌, ◌≢◌, ◌≤◌, ◌⊎◌, ◌++◌, refl, true, false, some, arith, List, [], ◌∷◌, length,
  ◌==◌, if◌then◌else◌, enosys, inr,
}
use libc_override.Bootstrap.Blocks.{load64-store64}
use libc_override.Bootstrap.{store64}
use libc_override.Examples.Allocator.{Bump, is_live, take_next, move_block, give_back}
use libc_override.Scanf.Chars.{is_digit, parse_width_char, parse_width_wchar}
use libc_override.Scanf.First.{first_call_fails}
use libc_override.Scanf.Homes.{
  IsString, Rehomed, rehome_string, reached, rehome_all, rehome_plan-reached,
}
use libc_override.Scanf.Loops.{Ends, parse-Rising, parse-fuel, start}
use libc_override.Scanf.Numbers.{digits, saturate, parse_width_lem}
use libc_override.Scanf.Ordinals.{Rising}
use libc_override.Scanf.Parse.{
  parse_scanf_format, parse_wscanf_format, parse_from, narrow_mode, wide_mode,
}
use libc_override.Scanf.Plan.{Allocator, Record, no_plan, char_string}
use libc_override.Scanf.Rehome.{Memory, rehome_record, rehome_plan, load_pointer_slot}
use libc_override.Scanf.Wrap.{
  World, Linker, Real, Entry, enter, eof, unresolved, resolve_scanf_symbols,
}

-- the C library's heap is all that the allocator has not handed out
abbrev pub allocator : Allocator
allocator = record {
  Mem = Bump;
  malloc = λ n h. take_next h;
  realloc = move_block;
  free = give_back;
  owns = λ p h. is_live h p;
  libc_free = λ p h. h;
}

abbrev pub heap : Bump
heap = record { next = 4096; alive = λ q. false }

-- `%ms,%*d%5mc`
abbrev format : List ℕ
format = 37 ∷ 109 ∷ 115 ∷ 44 ∷ 37 ∷ 42 ∷ 100 ∷ 37 ∷ 53 ∷ 109 ∷ 99 ∷ []

abbrev args : ℕ → ℕ
args n = 64 + n

parse_width_lem_example :
    (parse_width_char (digits (1 ∷ 2 ∷ []) ++ (109 ∷ [])) ≡ (saturate 12, 109 ∷ []))
    × (parse_width_wchar (digits (1 ∷ 2 ∷ []) ++ (109 ∷ [])) ≡ (saturate 12, 109 ∷ []))
unfolding is_digit
parse_width_lem_example =
    parse_width_lem (1 ∷ 2 ∷ []) (109 ∷ []) (omega arith, (omega arith, tt)) refl

parse-Rising_example :
    ((high : ℕ) × (high ≤ length format)
      × Rising 0 (parse_scanf_format allocator format args no_plan heap).1.0.records high)
    × ((high : ℕ) × (high ≤ length format)
        × Rising 0 (parse_wscanf_format allocator format args no_plan heap).1.0.records high)
parse-Rising_example = parse-Rising allocator format args heap (omega arith)

parse-fuel_example :
    Ends allocator
      (parse_scanf_format allocator format args no_plan heap)
      (parse_from allocator (length format + 5) narrow_mode args (start format heap))
    × Ends allocator
        (parse_wscanf_format allocator format args no_plan heap)
        (parse_from allocator (length format + 5) wide_mode args (start format heap))
parse-fuel_example = parse-fuel allocator format args heap (omega arith) 5

-- the string "hi" at 200, and a pointer to it in the slot at 64
abbrev text : ℕ → ℕ
text q = if q == 200 then 104 else if q == 201 then 105 else 0

abbrev memory : Memory allocator
memory = record { mem = heap; bytes = store64 text 64 200 }

abbrev pub noted : Record
noted = record { slot = 64; ordinal = 1; mode = char_string; width = 0 }

slot-text : load_pointer_slot allocator 64 memory ≡ 200
unfolding load_pointer_slot
slot-text = load64-store64 text 64 200 (omega arith)

text-IsString : IsString memory.bytes (load_pointer_slot allocator 64 memory) 2
unfolding store64
text-IsString = rw slot-text (record { inside = λ i h e. ground (arith, e); ends = refl })

slot-ne : load_pointer_slot allocator 64 memory ≢ 0
slot-ne = rw slot-text (λ e. ground (arith, e))

foreign : allocator.owns (load_pointer_slot allocator 64 memory) memory.mem ≡ false
foreign = rw slot-text refl

rehome_string_example :
    ((take_next heap).0 ≡ 0)
      × (rehome_record allocator true noted memory ≡ record memory { mem = (take_next heap).1 })
    ⊎ Rehomed allocator 64
        (load_pointer_slot allocator 64 memory)
        3
        memory
        (rehome_record allocator true noted memory)
unfolding take_next
rehome_string_example =
    rehome_string allocator noted memory 2 text-IsString (omega arith) refl slot-ne foreign
      (λ h. (omega arith, inr (omega arith)))

rehome_plan-reached_example :
    rehome_plan allocator true (record { address = 8; records = noted ∷ []; capacity = 8 }) 1 memory
    ≡ rehome_all allocator true (reached 1 (noted ∷ [])) memory
rehome_plan-reached_example =
    rehome_plan-reached allocator true (record { address = 8; records = noted ∷ []; capacity = 8 })
      1 1 memory (omega arith, ((λ e. ground (arith, e)), omega arith)) (omega arith)

-- real functions that match once
abbrev one_match : Real allocator
one_match source f a m = (1, m)

abbrev linker : Linker allocator
linker = record {
  real = λ f isoc99. some one_match;
  bridge_owns = true;
  bridge_libc_free = true;
  bridge_libc_realloc = true;
}

abbrev first : World allocator
first = record { memory = memory; globals = unresolved allocator; errno = none }

first_call_fails_example : enter allocator linker 16 Entry.scanf false 0 format args first ≡ (
  eof,
  record {
    memory = memory;
    globals = record (resolve_scanf_symbols allocator linker (unresolved allocator)) {
      resolved = true;
    };
    errno = some enosys;
  },
)
first_call_fails_example =
    first_call_fails allocator linker 16 false 0 format args first Entry.scanf refl

abbrev later : World allocator
later = record first {
  globals = record { resolved = true; real = λ f isoc99. some one_match; bridge_ready = true };
}

-- a real function at the end of its input
abbrev ends_now : Real allocator
ends_now source f a m = (eof, m)

abbrev ended : World allocator
ended = record first {
  globals = record { resolved = true; real = λ f isoc99. some ends_now; bridge_ready = true };
}
