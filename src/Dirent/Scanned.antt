-- ===== src/Dirent/Scanned.antt =====
-- What `scandir` of src/dirent_overrides.c returns, and that it loses no block.
use libc_override.Base.{
  ℕ, suc, ◌+◌, ◌*◌, ◌/◌, ◌%◌, ◌≤◌, ◌<◌, ◌^◌, ◌≡◌, refl, sym, ap, ◌∙◌, Bool, false, List, [], ◌∷◌,
  length, take, reverse, reverse_onto, reverse-reverse, length-reverse_onto, arith, inl, inr, ◌⊎◌,
  Option, none, some, ltb, leb, ◌==◌, if◌then◌else◌, Bool-cases, add_word, mul_word, size_max,
  Errno, enomem,
}
use libc_override.Base.Live.{Live, alloc, free, at, free_lem}
use libc_override.Dirent.{
  Dirent, entries, Allocator, Scan, Step, go, leave, moved, enlarge, copied, store, onward, scan,
  free_names, Outcome, failed, returned, closed, scandir,
}

abbrev pub Names : Type 0
Names = List (ℕ × List ℕ)

-- how many of the copies stand at an address
abbrev pub count : ℕ → Names → ℕ
count x [] = 0
count x ((p, text) ∷ names) = let rest = count x names in (if x == p then 1 else 0) + rest

abbrev pub texts : Names → List (List ℕ)
texts [] = []
texts ((p, text) ∷ names) = text ∷ texts names

-- the bytes of the entries that are selected
abbrev pub chosen : (Dirent → Bool) → List Dirent → List (List ℕ)
chosen sel [] = []
chosen sel (entry ∷ rest) =
    let more = chosen sel rest in if sel entry then take entry.d_reclen entry.bytes ∷ more else more

-- The blocks since `live` are those of the scan, and the array has room for its names, but no more than
-- about twice as many.
pub record Holds (live : Live) (s : Scan) : Type 0 where
  pub owned : (x : ℕ) → s.live x ≡ live x + count x s.names + at x s.block
  pub room : length s.names ≤ s.capacity
  pub tight : s.capacity ≤ 2 * length s.names + 1

free_names_lem :
    (names : Names) (now : Live) (x before : ℕ)
    → now x ≡ before + count x names
    → free_names names now x ≡ before
unfolding free_names
free_names_lem [] now x before h = omega (arith, h)
free_names_lem ((p, text) ∷ names) now x before h =
    free_names_lem names (free (some p) now) x before
      (free_lem (some p) now x (before + count x names) (omega (arith, h)))

length-names : (names : Names) → length (texts names) ≡ length names
length-names [] = refl
length-names ((p, text) ∷ names) = ap suc (length-names names)

module _ (a : Allocator) (live : Live) where
  -- a step that was made, or one that failed for want of memory
  abbrev Went : List (List ℕ) → Step → Type 0
  Went after (go s) = Holds live s × (texts s.names ≡ after)
  Went after (leave e s) =
      ((x : ℕ) → s.live x ≡ live x + count x s.names + at x s.block) × (e ≡ some enomem)

  Roomy : Step → (s : Scan) → Type 0
  Roomy (go t) s = Holds live t × (t.names ≡ s.names) × (length t.names < t.capacity)
  Roomy (leave e t) s =
      ((x : ℕ) → t.live x ≡ live x + count x t.names + at x t.block) × (e ≡ some enomem)

  moved-Roomy :
      (answer : Option ℕ) (s : Scan) (capacity : ℕ)
      → Holds live s
      → capacity ≡ 2 * s.capacity + 1
      → s.capacity ≡ length s.names
      → Roomy (moved answer (record s { capacity = capacity })) s
  unfolding moved alloc free Roomy
  moved-Roomy none s capacity h wide full = (h.owned, refl)
  moved-Roomy (some tmp) s capacity h wide full = (
    record {
      owned = λ x. ground (arith, free_lem s.block s.live x (live x + count x s.names) (h.owned x));
      room = omega (arith, wide, full);
      tight = omega (arith, wide, full);
    },
    refl,
    omega (arith, wide, full),
  )

  enlarge-Roomy : (s : Scan) → Holds live s → length s.names < 2 ^ 59 → Roomy (enlarge a s) s
  unfolding enlarge Roomy
  enlarge-Roomy s h few = elim (Bool-cases (leb s.capacity (length s.names))) [
    | inl full ↦ rw full (
        let wide : add_word (mul_word 2 s.capacity) 1 ≡ 2 * s.capacity + 1 =
          ground (arith, h.tight) in
        let small : ltb (size_max / 8) (2 * s.capacity + 1) ≡ false = ground (arith, h.tight) in
        rw (wide, small)
          (moved-Roomy (a.realloc (mul_word (2 * s.capacity + 1) 8)) s (2 * s.capacity + 1) h refl
            (ground (arith, h.room))))
    | inr spare ↦ rw spare (h, refl, ground arith)
  ]

  copied-Went :
      (answer : Option ℕ) (entry : Dirent) (s : Scan)
      → Holds live s
      → length s.names < s.capacity
      → Went (take entry.d_reclen entry.bytes ∷ texts s.names) (copied answer entry s)
  unfolding copied alloc
  copied-Went none entry s h room = (h.owned, refl)
  copied-Went (some p) entry s h room = (
    record {
      owned = λ x. ground (arith, h.owned x);
      room = omega (arith, room);
      tight = omega (arith, h.tight);
    },
    refl,
  )

  store-Went :
      (entry : Dirent) (s : Scan) (step : Step)
      → Roomy step s
      → Went (take entry.d_reclen entry.bytes ∷ texts s.names) (store a entry step)
  unfolding store Roomy
  store-Went entry s (go t) (h, same, room) =
      rw (ap texts same) at (copied-Went (a.malloc (length t.names) entry.d_reclen) entry t h room)
  store-Went entry s (leave e t) h = h

  -- the loop
  abbrev Ran : List (List ℕ) → Option Errno → Option Errno × Scan → Type 0
  Ran after last (e, s) =
      ((x : ℕ) → s.live x ≡ live x + count x s.names + at x s.block)
      × ((e ≡ last) × (texts s.names ≡ after) ⊎ (e ≡ some enomem))

  onward-Ran :
      (next : Scan → Option Errno × Scan) (before after : List (List ℕ)) (last : Option Errno)
      (step : Step)
      → Went before step
      → ((s : Scan) → Holds live s → texts s.names ≡ before → Ran after last (next s))
      → Ran after last (onward next step)
  unfolding onward
  onward-Ran next before after last (go s) (h, same) ih = ih s h same
  onward-Ran next before after last (leave e s) (owned, no_memory) ih = (owned, inr no_memory)

  scan-Ran :
      (sel : Dirent → Bool) (es : List Dirent) (last : Option Errno) (s : Scan)
      → Holds live s
      → length s.names + length es < 2 ^ 59
      → Ran (reverse_onto (chosen sel es) (texts s.names)) last (scan a sel es last s)
  unfolding scan
  scan-Ran sel [] last s h few = (h.owned, inl (refl, refl))
  scan-Ran sel (entry ∷ es) last s h few = elim (Bool-cases (sel entry)) [
    | inl e ↦ rw e (
        onward-Ran (scan a sel es last) (take entry.d_reclen entry.bytes ∷ texts s.names) _ last
          (store a entry (enlarge a s))
          (store-Went entry s (enlarge a s) (enlarge-Roomy s h (omega arith)))
          (λ t k same. rw same at (
            scan-Ran sel es last t k
              (omega (arith, ap length same, length-names t.names, length-names s.names)))))
    | inr e ↦ rw e (scan-Ran sel es last s h (omega arith))
  ]

texts-reverse_onto :
    (xs ys : Names) → texts (reverse_onto xs ys) ≡ reverse_onto (texts xs) (texts ys)
texts-reverse_onto [] ys = refl
texts-reverse_onto ((p, text) ∷ xs) ys = texts-reverse_onto xs ((p, text) ∷ ys)

some-injective : (x y : Errno) → some x ≡ some y → x ≡ y
some-injective x y e = ap (λ o. elim o [ none ↦ x | some z ↦ z ]) e

module _ (order : Names → Names) (old_errno : Errno) (live : Live) (wanted : List (List ℕ))
    (last : Option Errno) where
  -- An error that `readdir` or the allocator gave, with the blocks as they were; or copies of what is
  -- wanted, in order, and no other new block than they and their array.
  abbrev pub Scanned : Outcome → Type 0
  Scanned (failed e now) = ((x : ℕ) → now x ≡ live x) × ((last ≡ some e) ⊎ (e ≡ enomem))
  Scanned (returned result names block errno now) =
      (last ≡ none)
      × (result ≡ length wanted % 2 ^ 32)
      × (errno ≡ old_errno)
      × ((kept : Names) × (names ≡ order kept)
          × (texts kept ≡ wanted)
          × ((x : ℕ) → now x ≡ live x + count x kept + at x block))

  count-reverse_onto :
      (x : ℕ) (xs ys : Names) → count x (reverse_onto xs ys) ≡ count x xs + count x ys
  count-reverse_onto x [] ys = omega arith
  count-reverse_onto x ((p, text) ∷ xs) ys = omega (arith, count-reverse_onto x xs ((p, text) ∷ ys))

  closed-Scanned :
      (e : Option Errno) (s : Scan)
      → ((x : ℕ) → s.live x ≡ live x + count x s.names + at x s.block)
      → (e ≡ last) × (texts s.names ≡ reverse wanted) ⊎ (e ≡ some enomem)
      → Scanned (closed order old_errno (e, s))
  unfolding closed
  closed-Scanned (some e) s owned why = (
    λ x.
        free_lem s.block (free_names s.names s.live) x (live x)
          (free_names_lem s.names s.live x (live x + at x s.block) (omega (arith, owned x))),
    reason why,
  )
    where
      reason :
          {e : Errno} {all : Type 0}
          → (some e ≡ last) × all ⊎ (some e ≡ some enomem)
          → (last ≡ some e) ⊎ (e ≡ enomem)
      reason (inl (same, _)) = inl (sym same)
      reason {e} (inr no_memory) = inr (some-injective e enomem no_memory)
  closed-Scanned none s owned (inr no_memory) = absurd (ground (arith, no_memory))
  closed-Scanned none s owned (inl (same, all)) =
      let number : length s.names ≡ length wanted =
        omega (arith, length-names s.names, ap length all, length-reverse_onto wanted []) in
      (
        sym same,
        ap (λ n. n % 2 ^ 32) number,
        refl,
        (
          reverse s.names,
          refl,
          texts-reverse_onto s.names [] ∙ ap reverse all ∙ reverse-reverse wanted,
          λ x. omega (arith, owned x, count-reverse_onto x s.names []),
        ),
      )

-- `scandir` of a directory with fewer than 2 ^ 59 entries returns copies of the entries that are
-- selected, each `d_reclen` bytes long, in the order of `cmp`, with their number as an `int` and `errno`
-- as it was, and the only new blocks are the copies and their array. Or it fails with the error of `readdir`, or for want of memory,
-- and then every block that it allocated is free again.
pub scandir-Scanned :
    (a : Allocator) (sel : Dirent → Bool) (order : Names → Names) (es : List Dirent)
    (last : Option Errno) (old_errno : Errno) (live : Live)
    → length es < 2 ^ 59
    → Scanned order old_errno live
        (chosen sel es)
        last
        (scandir a sel order (entries es last) old_errno live)
unfolding scandir
scandir-Scanned a sel order es last old_errno live few =
    let begin : Scan = record { names = []; block = none; capacity = 0; live = live } in
    let holds : Holds live begin = record {
      owned = λ x. omega arith;
      room = omega arith;
      tight = omega arith;
    } in
    let (owned, why) = scan-Ran a live sel es last begin holds (omega arith) in
    closed-Scanned order old_errno live (chosen sel es) last _ _ owned why
