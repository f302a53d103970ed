-- ===== src/Scanf/Homes.antt =====
-- What a move keeps, and which records are moved.
use libc_override.Base.{
  ℕ, zero, suc, ◌+◌, ◌-◌, ◌≤◌, ◌<◌, ◌^◌, ◌≡◌, ◌≢◌, refl, ap, ◌∙◌, Bool, true, false, ◌||◌, List, [],
  ◌∷◌, arith, if◌then◌else◌, Bool-cases, inl, inr, ◌⊎◌, ◌==◌, add_word, ltb,
}
use libc_override.Bootstrap.Blocks.{load64-store64}
use libc_override.Bootstrap.{store64, copy}
use libc_override.Scanf.Ordinals.{Rising}
use libc_override.Scanf.Plan.{Allocator, Record, Plan, char_string}
use libc_override.Scanf.Rehome.{
  Memory, load_pointer_slot, store_pointer_slot, strlen, strlen_from, clone, clone_bytes,
  clone_char_string, replace, rehome_record, beyond, rehome_records, rehome_plan,
}

-- a string of `n` bytes at `at`
pub record IsString (m : ℕ → ℕ) (at n : ℕ) : Type 0 where
  pub inside : (i : ℕ) → i < n → m (at + i) ≢ 0
  pub ends : m (at + n) ≡ 0

strlen_from-lem :
    (fuel n : ℕ) (m : ℕ → ℕ) (at : ℕ) → n < fuel → IsString m at n → strlen_from fuel m at ≡ n
unfolding strlen_from
strlen_from-lem zero n m at h s = absurd (omega arith)
strlen_from-lem (suc fuel) zero m at h s =
    let e : m at ≡ 0 = ap m (omega arith) ∙ s.ends in ground arith
strlen_from-lem (suc fuel) (suc n) m at h s =
    let ne : m at ≢ 0 = λ e. s.inside 0 (omega arith) (ap m (omega arith) ∙ e) in
    let rest = strlen_from-lem fuel n m (at + 1) (omega arith) (record {
      inside = λ i lt e. s.inside (i + 1) (omega arith) (ap m (omega arith) ∙ e);
      ends = ap m (omega arith) ∙ s.ends;
    }) in
    ground (arith, rest)

store64-outside : (m : ℕ → ℕ) (at v q : ℕ) → (q + 1 ≤ at) ⊎ (at + 8 ≤ q) → store64 m at v q ≡ m q
unfolding store64
store64-outside m at v q h = ground arith

copy-outside :
    (m : ℕ → ℕ) (to from n q : ℕ) → (q + 1 ≤ to) ⊎ (to + n ≤ q) → copy m to from n q ≡ m q
unfolding copy
copy-outside m to from n q h = ground arith

copied : (m : ℕ → ℕ) (to from n i : ℕ) → i < n → copy m to from n (to + i) ≡ m (from + i)
unfolding copy
copied m to from n i h = let e : to + i - to ≡ i = omega arith in rw e (ground arith)

module _ (A : Allocator) where
  -- no byte of the one block is in the other
  abbrev pub Apart : (a n b k : ℕ) → Type 0
  Apart a n b k = (a + n ≤ b) ⊎ (b + k ≤ a)

  -- the pointer in `slot` now leads to a copy of the `n` bytes at `original`, which has been freed
  pub record Rehomed (slot original n : ℕ) (s t : Memory A) : Type 0 where
    pub address : ℕ
    pub allocated : (A.malloc n s.mem).0 ≡ address
    pub points : load_pointer_slot A slot t ≡ address
    pub contents : (i : ℕ) → i < n → t.bytes (address + i) ≡ s.bytes (original + i)
    pub freed : t.mem ≡ A.libc_free original (A.malloc n s.mem).1
    pub frame : (q : ℕ) → Apart q 1 slot 8 → Apart q 1 address n → t.bytes q ≡ s.bytes q

  clone_bytes-some :
      (original n : ℕ) (s : Memory A)
      → (A.malloc n s.mem).0 ≢ 0
      → clone_bytes A original n s ≡ (
        (A.malloc n s.mem).0,
        record { mem = (A.malloc n s.mem).1; bytes = copy s.bytes (A.malloc n s.mem).0 original n },
      )
  unfolding clone_bytes
  clone_bytes-some original n s ne =
      let some_block : ((A.malloc n s.mem).0 == 0) ≡ false = ground arith in rw some_block refl

  replace-some :
      (slot original a : ℕ) (s : Memory A)
      → a ≢ 0
      → replace A slot original (a, s)
        ≡ record { mem = A.libc_free original s.mem; bytes = store64 s.bytes slot a }
  unfolding replace store_pointer_slot
  replace-some slot original a s ne =
      let some_block : (a == 0) ≡ false = ground arith in rw some_block refl

  replaced :
      (slot original n : ℕ) (s : Memory A)
      → (A.malloc n s.mem).0 ≢ 0
      → (A.malloc n s.mem).0 < 2 ^ 64
      → Apart (A.malloc n s.mem).0 n slot 8
      → Rehomed slot original n s (replace A slot original (clone_bytes A original n s))
  unfolding load_pointer_slot
  replaced slot original n s ne small apart =
      let a = (A.malloc n s.mem).0 in
      let m = copy s.bytes a original n in
      rw
        (
          clone_bytes-some original n s ne,
          replace-some slot original a (record { mem = (A.malloc n s.mem).1; bytes = m }) ne,
        )
        (record {
          address = a;
          allocated = refl;
          points = load64-store64 m slot a small;
          contents = λ i h.
              store64-outside m slot a (a + i) (ground arith) ∙ copied s.bytes a original n i h;
          freed = refl;
          frame = λ q off_slot off_block.
              store64-outside m slot a q off_slot ∙ copy-outside s.bytes a original n q off_block;
        })

  -- a failed allocation leaves the bytes alone
  unplaced :
      (slot original n : ℕ) (s : Memory A)
      → (A.malloc n s.mem).0 ≡ 0
      → replace A slot original (clone_bytes A original n s)
        ≡ record s { mem = (A.malloc n s.mem).1 }
  unfolding replace clone_bytes
  unplaced slot original n s e =
      let none_left : ((A.malloc n s.mem).0 == 0) ≡ true = ground arith in simp none_left refl

  module _ (r : Record) (s : Memory A) (n : ℕ)
      (is : IsString s.bytes (load_pointer_slot A r.slot s) n) (small : n + 1 < 2 ^ 64)
      (mode : r.mode ≡ char_string) (ne : load_pointer_slot A r.slot s ≢ 0)
      (foreign : A.owns (load_pointer_slot A r.slot s) s.mem ≡ false) where
    string_len : add_word (strlen s.bytes (load_pointer_slot A r.slot s)) 1 ≡ n + 1
    unfolding strlen
    string_len =
        omega (
          arith,
          strlen_from-lem (2 ^ 64) n s.bytes (load_pointer_slot A r.slot s) (omega arith) is,
        )

    -- A `%ms` or `%m[` string that the C library has allocated is moved, its NUL included: the slot
    -- then points to a tracked copy, the original is freed there, and no other byte changes. If there
    -- is no memory for the copy, the slot keeps the original, which stays allocated.
    pub rehome_string :
        ((A.malloc (n + 1) s.mem).0 ≢ 0
          → ((A.malloc (n + 1) s.mem).0 < 2 ^ 64)
            × Apart (A.malloc (n + 1) s.mem).0 (n + 1) r.slot 8)
        → ((A.malloc (n + 1) s.mem).0 ≡ 0)
            × (rehome_record A true r s ≡ record s { mem = (A.malloc (n + 1) s.mem).1 })
          ⊎ Rehomed r.slot (load_pointer_slot A r.slot s) (n + 1) s (rehome_record A true r s)
    unfolding rehome_record clone clone_char_string
    rehome_string place =
        let original = load_pointer_slot A r.slot s in
        let busy : ((original == 0) || A.owns original s.mem) ≡ false = ground arith in
        let len = add_word (strlen s.bytes original) 1 in
        let exact : len ≡ n + 1 = string_len in
        simp (busy, mode, exact)
          (elim (Bool-cases ((A.malloc (n + 1) s.mem).0 == 0)) [
            | inl e ↦ inl (ground arith, unplaced r.slot original (n + 1) s (ground arith))
            | inr e ↦
                let (low, apart) = place (ground arith) in
                inr (replaced r.slot original (n + 1) s (ground arith) low apart)
          ])

-- the records that a result of `matches` has reached
pub reached : ℕ → List Record → List Record
reached matches [] = []
reached matches (r ∷ rs) =
    if ltb matches r.ordinal then reached matches rs else r ∷ reached matches rs

-- the moves of some records, one after the other
pub rehome_all : (A : Allocator) → Bool → List Record → Memory A → Memory A
rehome_all A ready [] s = s
rehome_all A ready (r ∷ rs) s = rehome_all A ready rs (rehome_record A ready r s)

reached-none :
    (rs : List Record) (matches low high : ℕ)
    → Rising low rs high
    → matches ≤ low
    → reached matches rs ≡ []
unfolding reached
reached-none [] matches low high h le = refl
reached-none (r ∷ rs) matches low high (lt, (slot, h)) le =
    let over : ltb matches r.ordinal ≡ true = ground arith in
    rw over (reached-none rs matches r.ordinal high h (omega arith))

Rising-high : (rs : List Record) (low high : ℕ) → Rising low rs high → low ≤ high
Rising-high [] low high h = h
Rising-high (r ∷ rs) low high (lt, (slot, h)) = omega (arith, Rising-high rs r.ordinal high h)

module _ (A : Allocator) (ready : Bool) where
  rehome_records-reached :
      (rs : List Record) (matches low high : ℕ) (s : Memory A)
      → Rising low rs high
      → high < 2 ^ 31
      → rehome_records A ready rs matches s ≡ rehome_all A ready (reached matches rs) s
  unfolding rehome_records rehome_all reached
  rehome_records-reached [] matches low high s h small = refl
  rehome_records-reached (r ∷ rs) matches low high s (lt, (slot, h)) small =
      let top = Rising-high rs r.ordinal high h in
      elim (Bool-cases (ltb matches r.ordinal)) [
        | inl e ↦
            let stop : beyond A r.ordinal matches ≡ true = ground arith in
            rw (stop, e, reached-none rs matches r.ordinal high h (ground arith)) refl
        | inr e ↦
            let go : beyond A r.ordinal matches ≡ false = ground arith in
            rw (go, e)
              (rehome_records-reached rs matches r.ordinal high (rehome_record A ready r s) h small)
      ]

  -- For a plan in the order of its ordinals, the loop that stops at the first record behind the
  -- matches moves exactly the records of the conversions that have matched, in order.
  pub rehome_plan-reached :
      (plan : Plan) (matches high : ℕ) (s : Memory A)
      → Rising 0 plan.records high
      → high < 2 ^ 31
      → rehome_plan A ready plan matches s ≡ rehome_all A ready (reached matches plan.records) s
  unfolding rehome_plan
  rehome_plan-reached plan matches high s h small =
      rehome_records-reached plan.records matches 0 high s h small
