-- ===== src/Scanf/Rehome.antt =====
-- The moves of src/scanf_overrides.c: what a `%m` conversion has allocated in the C library's heap is
-- copied into a block of the tracked heap, the pointer is replaced, and the original freed.
use libc_override.Base.{
  ℕ, zero, suc, ◌+◌, ◌^◌, Bool, ◌&&◌, ◌||◌, not, List, [], ◌∷◌, Option, none, some, ltb, ◌==◌,
  if◌then◌else◌, add_word, mul_word,
}
use libc_override.Bootstrap.{store64, load64, copy}
use libc_override.Scanf.Plan.{
  Allocator, Mode, Record, Plan, char_string, wide_string, char_count, wide_count,
  unsupported_wide_char_count,
}
use libc_override.Stats.{is_positive}

-- `sizeof(wchar_t)`
abbrev pub wchar_size : ℕ
wchar_size = 4

-- `strlen`: the first zero byte, looked for in the address space
unfoldable pub strlen_from : ℕ → (ℕ → ℕ) → ℕ → ℕ
strlen_from zero m at = 0
strlen_from (suc n) m at = let rest = strlen_from n m (at + 1) in if m at == 0 then 0 else suc rest

unfoldable pub strlen : (ℕ → ℕ) → ℕ → ℕ
strlen m at = strlen_from (2 ^ 64) m at

-- `wcslen`: the first wide character with four zero bytes
unfoldable pub wcslen_from : ℕ → (ℕ → ℕ) → ℕ → ℕ
wcslen_from zero m at = 0
wcslen_from (suc n) m at =
    let rest = wcslen_from n m (at + wchar_size) in
    if (m at == 0) && ((m (at + 1) == 0) && ((m (at + 2) == 0) && (m (at + 3) == 0)))
    then 0
    else suc rest

unfoldable pub wcslen : (ℕ → ℕ) → ℕ → ℕ
wcslen m at = wcslen_from (2 ^ 64) m at

module _ (A : Allocator) where
  -- the state of the allocator, and the bytes by their address
  pub record Memory : Type 0 where
    pub mem : A.Mem
    pub bytes : ℕ → ℕ

  unfoldable pub load_pointer_slot : ℕ → Memory → ℕ
  load_pointer_slot slot s = load64 s.bytes slot

  unfoldable pub store_pointer_slot : (slot value : ℕ) → Memory → Memory
  store_pointer_slot slot value s = record s { bytes = store64 s.bytes slot value }

  -- the pointer, `NULL` if there is no memory; nothing is copied for length 0
  unfoldable pub clone_bytes : (source len : ℕ) → Memory → ℕ × Memory
  clone_bytes source len s =
      let (address, mem) = A.malloc len s.mem in
      if address == 0
      then (0, record s { mem = mem })
      else (address, record { mem = mem; bytes = copy s.bytes address source len })

  unfoldable pub clone_char_string : ℕ → Memory → ℕ × Memory
  clone_char_string source s = clone_bytes source (add_word (strlen s.bytes source) 1) s

  unfoldable pub clone_wide_string : ℕ → Memory → ℕ × Memory
  clone_wide_string source s =
      clone_bytes source (mul_word (add_word (wcslen s.bytes source) 1) wchar_size) s

  -- the `switch` on the mode; `none` where the function returns from it
  unfoldable pub clone : Mode → (original width : ℕ) → Memory → Option (ℕ × Memory)
  clone char_string original width s = some (clone_char_string original s)
  clone wide_string original width s = some (clone_wide_string original s)
  clone char_count original width s = some (clone_bytes original width s)
  clone wide_count original width s = some (clone_bytes original (mul_word width wchar_size) s)
  clone unsupported_wide_char_count original width s = none

  -- the code behind the `switch`
  unfoldable pub replace : (slot original : ℕ) → ℕ × Memory → Memory
  replace slot original (replacement, s) =
      if replacement == 0
      then s
      else let s' = store_pointer_slot slot replacement s in
        record s' { mem = A.libc_free original s'.mem }

  -- `ao_rehome_scanf_record` for a value of `g_bridge_ready`
  unfoldable pub rehome_record : (bridge_ready : Bool) → Record → Memory → Memory
  rehome_record bridge_ready r s =
      let original = load_pointer_slot r.slot s in
      if (original == 0) || (not bridge_ready || A.owns original s.mem)
      then s
      else elim (clone r.mode original r.width s) [ none ↦ s | some x ↦ replace r.slot original x ]

  -- `(int)ordinal > matches`, for an `int` that is positive
  abbrev pub beyond : (ordinal matches : ℕ) → Bool
  beyond ordinal matches = is_positive ordinal && ltb matches ordinal

  -- the loop of `ao_rehome_scanf_plan`
  unfoldable pub rehome_records : (bridge_ready : Bool) → List Record → ℕ → Memory → Memory
  rehome_records bridge_ready [] matches s = s
  rehome_records bridge_ready (r ∷ rs) matches s =
      let rest = rehome_records bridge_ready rs matches (rehome_record bridge_ready r s) in
      if beyond r.ordinal matches then s else rest

  unfoldable pub rehome_plan : (bridge_ready : Bool) → Plan → ℕ → Memory → Memory
  rehome_plan bridge_ready plan matches s = rehome_records bridge_ready plan.records matches s
