-- ===== src/Scanf/Growth.antt =====
-- The growth of a plan.
use libc_override.Base.{
  ℕ, ◌+◌, ◌*◌, ◌≤◌, ◌<◌, ◌^◌, ◌≡◌, ◌≢◌, refl, Bool, true, false, [], ◌∷◌, ◌++◌, length,
  length-append, arith, if◌then◌else◌, Bool-cases, inl, inr, ◌⊎◌, ◌==◌, mul_word, ap, sym, ◌∙◌,
}
use libc_override.Scanf.Plan.{Allocator, Record, Plan, plan_push, record_size}

-- the records in use fit the array
pub record Fits (plan : Plan) : Type 0 where
  pub fits : length plan.records ≤ plan.capacity

module _ (A : Allocator) (plan : Plan) (r : Record) (mem : A.Mem) where
  -- the array that a full plan asks for
  abbrev pub wanted : ℕ
  wanted = if plan.capacity == 0 then 8 else plan.capacity * 2

  -- a push that succeeded
  pub record Pushes (x : Bool × (Plan × A.Mem)) : Type 0 where
    pub ok : x.0 ≡ true
    pub records : x.1.0.records ≡ plan.records ++ (r ∷ [])
    pub fits : Fits x.1.0
    pub grows :
        if length plan.records == plan.capacity
        then (x.1.0.capacity ≡ wanted)
          × ((x.1.0.address, x.1.1) ≡ A.realloc plan.address (wanted * record_size) mem)
        else (x.1.0.capacity ≡ plan.capacity) × (x.1.0.address ≡ plan.address) × (x.1.1 ≡ mem)

  abbrev append : (address capacity : ℕ) → Plan
  append address capacity = record {
    address = address;
    records = plan.records ++ (r ∷ []);
    capacity = capacity;
  }

  more : length (plan.records ++ (r ∷ [])) ≡ length plan.records + 1
  more = length-append plan.records (r ∷ [])

  ne : (length plan.records == plan.capacity) ≡ false → length plan.records ≢ plan.capacity
  ne e = ground arith

  push_room :
      (length plan.records == plan.capacity) ≡ false
      → plan_push A plan r mem ≡ (true, (append plan.address plan.capacity, mem))
  unfolding plan_push
  push_room e = rw e refl

  -- what the result of the real function decides
  abbrev answer : ℕ × A.Mem → Bool × (Plan × A.Mem)
  answer x = if x.0 == 0 then (false, (plan, x.1)) else (true, (append x.0 wanted, x.1))

  push_full :
      (length plan.records == plan.capacity) ≡ true
      → plan.capacity * 2 * record_size < 2 ^ 64
      → plan_push A plan r mem ≡ answer (A.realloc plan.address (wanted * record_size) mem)
  unfolding plan_push
  push_full e small =
      let exact : (if plan.capacity == 0 then 8 else mul_word plan.capacity 2) ≡ wanted =
        ground arith in
      let bytes : mul_word wanted record_size ≡ wanted * record_size = ground arith in
      rw (e, exact, bytes) refl

  grown :
      (x : ℕ × A.Mem)
      → A.realloc plan.address (wanted * record_size) mem ≡ x
      → (length plan.records == plan.capacity) ≡ true
      → ((answer x).0 ≡ false)
          × ((answer x).1.0 ≡ plan)
          × (length plan.records ≡ plan.capacity)
          × ((A.realloc plan.address (wanted * record_size) mem).0 ≡ 0)
        ⊎ Pushes (answer x)
  grown x is e = elim (Bool-cases (x.0 == 0)) [
    | inl null ↦
        rw null (inl (refl, refl, ground arith, ap (λ (y : ℕ × A.Mem). y.0) is ∙ ground arith))
    | inr found ↦ rw found (
        inr (record {
          ok = refl;
          records = refl;
          fits = record { fits = ground (arith, more) };
          grows = rw e (refl, sym is);
        }))
  ]

  -- Where twice the capacity does not overflow, a push appends the record, within an array that is
  -- large enough. Where the array is not full, it stays where it is and `realloc` is not called; where
  -- it is, it becomes what `realloc` answers to room for 8 records at first and then for twice as many.
  -- A push fails only if the array is full and there is no memory for that, and then leaves the plan
  -- as it was.
  pub plan_push_lem :
      Fits plan
      → plan.capacity * 2 * record_size < 2 ^ 64
      → ((plan_push A plan r mem).0 ≡ false)
          × ((plan_push A plan r mem).1.0 ≡ plan)
          × (length plan.records ≡ plan.capacity)
          × ((A.realloc plan.address (wanted * record_size) mem).0 ≡ 0)
        ⊎ Pushes (plan_push A plan r mem)
  plan_push_lem fits small = elim (Bool-cases (length plan.records == plan.capacity)) [
    | inl e ↦
        rw (push_full e small) (grown (A.realloc plan.address (wanted * record_size) mem) refl e)
    | inr e ↦ rw (push_room e) (
        inr (record {
          ok = refl;
          records = refl;
          fits = record { fits = omega (arith, more, fits.fits, ne e) };
          grows = rw e (refl, refl, refl);
        }))
  ]
