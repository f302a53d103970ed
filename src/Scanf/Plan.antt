-- ===== src/Scanf/Plan.antt =====
-- The plan of src/scanf_overrides.c: a growing array of records, in memory of the allocator.
use libc_override.Base.{
  ℕ, Bool, true, false, List, [], ◌∷◌, ◌++◌, length, ◌==◌, if◌then◌else◌, mul_word,
}

-- The allocator that the overrides call: `malloc`, `realloc` and `free`, which this library
-- overrides too, and the bridge into it. `Mem` is its state; a pointer is an address.
pub record Allocator : Type 1 where
  pub Mem : Type 0
  pub malloc : ℕ → Mem → ℕ × Mem
  pub realloc : ℕ → ℕ → Mem → ℕ × Mem
  pub free : ℕ → Mem → Mem
  pub owns : ℕ → Mem → Bool
  pub libc_free : ℕ → Mem → Mem

-- `AO_SIZE_DEF` and `AO_SIZE_L`
pub data Size : Type 0 where
  def l : Size

-- `ao_rehome_mode`
pub data Mode : Type 0 where
  char_string wide_string char_count wide_count unsupported_wide_char_count : Mode

-- `ao_scanf_record`
pub record Record : Type 0 where
  pub slot : ℕ
  pub ordinal : ℕ
  pub mode : Mode
  pub width : ℕ

-- `ao_scanf_plan`: `address` is the pointer, and `records` the part of the array that is in use,
-- so that `count` is its length
pub record Plan : Type 0 where
  pub address : ℕ
  pub records : List Record
  pub capacity : ℕ

abbrev pub no_plan : Plan
no_plan = record { address = 0; records = []; capacity = 0 }

-- `sizeof(ao_scanf_record)` of the 64-bit ABIs
abbrev pub record_size : ℕ
record_size = 24

module _ (A : Allocator) where
  -- the C result, 0 for `true` and -1 for `false`, with the plan and the memory
  unfoldable pub plan_push : Plan → Record → A.Mem → Bool × (Plan × A.Mem)
  plan_push plan r mem =
      let new_capacity = if plan.capacity == 0 then 8 else mul_word plan.capacity 2 in
      let (address, mem') = A.realloc plan.address (mul_word new_capacity record_size) mem in
      if length plan.records == plan.capacity
      then if address == 0 then (false, (plan, mem')) else (
        true,
        (
          record { address = address; records = plan.records ++ (r ∷ []); capacity = new_capacity },
          mem',
        ),
      )
      else (true, (record plan { records = plan.records ++ (r ∷ []) }, mem))

  unfoldable pub plan_reset : Plan → A.Mem → Plan × A.Mem
  plan_reset plan mem = (no_plan, A.free plan.address mem)
