-- ===== src/Scanf/Formats/Whole.antt =====
-- What the parsers of src/scanf_overrides.c note of a format that is written from its meaning.
use libc_override.Base.{
  ℕ, ◌≡◌, ◌≢◌, refl, sym, ap, ◌∙◌, ◌⊎◌, inl, inr, Bool, true, false, Bool-cases, List, [], ◌∷◌,
  ◌++◌, append-nil, length, ◌==◌, if◌then◌else◌, arith, mul_word,
}
use mathlib.Core.List.{append_assoc}
use libc_override.Scanf.Plan.{Record, Plan, Allocator, plan_push, record_size}
use libc_override.Scanf.Parse.{Parsed, parsed, failed, parse_scanf_format, parse_wscanf_format}
use libc_override.Scanf.Formats.{Item, print, AllItems, records_of, push_then, push_all}
use libc_override.Scanf.Formats.Rounds.{parse_from-print}

module _ (A : Allocator) where
  -- a push adds the record, or leaves the plan
  plan_push-records :
      (plan : Plan) (r : Record) (mem : A.Mem)
      → (((plan_push A plan r mem).0 ≡ true)
          × ((plan_push A plan r mem).1.0.records ≡ plan.records ++ r ∷ []))
        ⊎ (((plan_push A plan r mem).0 ≡ false)
            × ((plan_push A plan r mem).1.0.records ≡ plan.records))
  unfolding plan_push
  plan_push-records plan r mem = elim (Bool-cases (length plan.records == plan.capacity)) [
    | inl full ↦
        let size = if plan.capacity == 0 then 8 else mul_word plan.capacity 2 in
        elim (Bool-cases ((A.realloc plan.address (mul_word size record_size) mem).0 == 0)) [
          | inl null ↦ inr (rw (full, null) refl, rw (full, null) refl)
          | inr given ↦ inl (rw (full, given) refl, rw (full, given) refl)
        ]
    | inr room ↦ inl (rw room refl, rw room refl)
  ]

  -- all records are in the plan, or the first of them up to one that found no room
  abbrev pub Holds : List Record → Plan → Parsed A → Type 0
  Holds rs plan r =
      ((r.0 ≡ parsed) × (r.1.0.records ≡ plan.records ++ rs))
      ⊎ ((r.0 ≡ failed)
          × ((xs ys : List Record) × (rs ≡ xs ++ ys)
              × (ys ≢ [])
              × (r.1.0.records ≡ plan.records ++ xs)))

  push_all-Holds :
      (rs : List Record) (plan : Plan) (mem : A.Mem) → Holds rs plan (push_all A rs plan mem)
  unfolding push_then
  push_all-Holds [] plan mem = inl (refl, sym (append-nil plan.records))
  push_all-Holds (r ∷ rs) plan mem =
      let (plan', mem') = (plan_push A plan r mem).1 in
      elim (plan_push-records plan r mem) [
        | inr (no_room, same) ↦
            rw no_room
              (inr (refl, ([], r ∷ rs, refl, (λ e. cc), same ∙ sym (append-nil plan.records))))
        | inl (ok, added) ↦ rw ok (elim (push_all-Holds rs plan' mem') [
          | inl (done, all) ↦ inl (done, all ∙ rw added (append_assoc plan.records (r ∷ []) rs))
          | inr (stops, (xs, ys, parts, more, some_there)) ↦ inr (
            stops,
            (
              r ∷ xs,
              ys,
              ap (◌∷◌ r) parts,
              more,
              some_there ∙ rw added (append_assoc plan.records (r ∷ []) xs),
            ),
          )
        ])
      ]

  -- what a parser makes of a format
  pub record Notes (wide : Bool) (args : ℕ → ℕ) (xs : List Item) (plan : Plan) (mem : A.Mem)
      (r : Parsed A) : Type 0 where
    pub pushes : r ≡ push_all A (records_of wide args 0 0 xs) plan mem
    pub holds : Holds (records_of wide args 0 0 xs) plan r

  -- A format that is written from literal characters and conversions is read as what it means. Both
  -- parsers push, in this order, one record for each `%m` conversion of a string, of characters or of a
  -- scanset that is stored somewhere: with the argument that it stores to, the next one or the one of
  -- its number; with its place among the conversions that count as matches; with its width, 1 by default
  -- where characters are counted; and with the mode that its length modifier asks for. They note
  -- nothing else, and stop early only for want of memory.
  pub parse-print :
      (args : ℕ → ℕ) (xs : List Item) (plan : Plan) (mem : A.Mem)
      → AllItems xs
      → Notes false args xs plan mem (parse_scanf_format A (print xs) args plan mem)
        × Notes true args xs plan mem (parse_wscanf_format A (print xs) args plan mem)
  unfolding parse_scanf_format parse_wscanf_format
  parse-print args xs plan mem all =
      let narrow =
        parse_from-print A false args xs (length (print xs)) 0 0 plan mem (omega arith) all in
      let wide =
        parse_from-print A true args xs (length (print xs)) 0 0 plan mem (omega arith) all in
      (
        record {
          pushes = narrow;
          holds = rw narrow (push_all-Holds (records_of false args 0 0 xs) plan mem);
        },
        record {
          pushes = wide;
          holds = rw wide (push_all-Holds (records_of true args 0 0 xs) plan mem);
        },
      )
