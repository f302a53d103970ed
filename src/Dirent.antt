-- ===== src/Dirent.antt =====
-- `scandir` and `scandir64` of src/dirent_overrides.c, whose code is the same.
pub mod Scanned
use libc_override.Base.{
  ℕ, zero, suc, ◌+◌, ◌-◌, ◌*◌, ◌/◌, ◌%◌, ◌^◌, Bool, true, false, not, List, [], ◌∷◌, ◌++◌, length,
  take, reverse, Option, none, some, ltb, leb, if◌then◌else◌, add_word, mul_word, size_max, Errno,
  enomem,
}
use libc_override.Base.Live.{Live, alloc, free}

-- `struct dirent`, with the bytes of the whole record
pub record Dirent : Type 0 where
  pub d_reclen : ℕ
  pub bytes : List ℕ

-- What `opendir` and the calls of `readdir` answer: an error, or the entries, and the error that the
-- last call sets, if it is one.
pub data Directory : Type 0 where
  unopened : Errno → Directory
  entries : List Dirent → Option Errno → Directory

-- what `malloc` answers to a size when so many entries are kept, and `realloc` to a size
pub record Allocator : Type 0 where
  pub malloc : (count size : ℕ) → Option ℕ
  pub realloc : (size : ℕ) → Option ℕ

-- the copies, the last first, with the array that holds them
pub record Scan : Type 0 where
  pub names : List (ℕ × List ℕ)
  pub block : Option ℕ
  pub capacity : ℕ
  pub live : Live

-- the loop went on, or was left with an `errno`, which is `none` for zero
pub data Step : Type 0 where
  go : Scan → Step
  leave : Option Errno → Scan → Step

unfoldable pub moved : Option ℕ → Scan → Step
unfolding alloc free
moved none s = leave (some enomem) s
moved (some tmp) s = go (record s { block = some tmp; live = alloc tmp (free s.block s.live) })

-- room for another name
unfoldable pub enlarge : Allocator → Scan → Step
unfolding moved
enlarge a s =
    let capacity = add_word (mul_word 2 s.capacity) 1 in
    let wider = record s { capacity = capacity } in
    if leb s.capacity (length s.names)
    then (if ltb (size_max / 8) capacity
        then leave none wider
        else moved (a.realloc (mul_word capacity 8)) wider)
    else go s

unfoldable pub copied : Option ℕ → Dirent → Scan → Step
unfolding alloc
copied none entry s = leave (some enomem) s
copied (some p) entry s =
    go (record s { names = (p, take entry.d_reclen entry.bytes) ∷ s.names; live = alloc p s.live })

unfoldable pub store : Allocator → Dirent → Step → Step
unfolding copied
store a entry (go s) = copied (a.malloc (length s.names) entry.d_reclen) entry s
store a entry (leave e s) = leave e s

unfoldable pub onward : (Scan → Option Errno × Scan) → Step → Option Errno × Scan
onward next (go s) = next s
onward next (leave e s) = (e, s)

-- the loop, up to the `errno` that it leaves
unfoldable pub scan :
    Allocator → (sel : Dirent → Bool) → List Dirent → Option Errno → Scan → Option Errno × Scan
unfolding onward store enlarge
scan a sel [] last s = (last, s)
scan a sel (entry ∷ rest) last s =
    let skipped = scan a sel rest last s in
    let kept = onward (scan a sel rest last) (store a entry (enlarge a s)) in
    if sel entry then kept else skipped

-- the loop that frees the names from the last on
unfoldable pub free_names : List (ℕ × List ℕ) → Live → Live
unfolding free
free_names [] live = live
free_names ((p, text) ∷ names) live = free_names names (free (some p) live)

-- what is returned, an `int` as its 32 bits, with `errno` and the blocks that are allocated
pub data Outcome : Type 0 where
  failed : Errno → Live → Outcome
  returned :
      (result : ℕ)
      → (names : List (ℕ × List ℕ)) → (block : Option ℕ) → (errno : Errno) → Live
      → Outcome

-- the code behind `closedir`; `order` is `qsort` with the caller's `cmp`, if there is one
unfoldable pub closed :
    (order : List (ℕ × List ℕ) → List (ℕ × List ℕ))
    → (old_errno : Errno) → Option Errno × Scan
    → Outcome
unfolding free_names free
closed order old_errno (some e, s) = failed e (free s.block (free_names s.names s.live))
closed order old_errno (none, s) =
    returned (length s.names % 2 ^ 32) (order (reverse s.names)) s.block old_errno s.live

-- `sel` is true of all entries where the caller has none, and does not change `errno`
unfoldable pub scandir :
    Allocator
    → (sel : Dirent → Bool) → (order : List (ℕ × List ℕ) → List (ℕ × List ℕ)) → Directory
    → Errno
    → Live
    → Outcome
unfolding closed scan
scandir a sel order (unopened e) old_errno live = failed e live
scandir a sel order (entries es last) old_errno live =
    closed order old_errno
      (scan a sel es last (record { names = []; block = none; capacity = 0; live = live }))

unfoldable pub scandir64 :
    Allocator
    → (sel : Dirent → Bool) → (order : List (ℕ × List ℕ) → List (ℕ × List ℕ)) → Directory
    → Errno
    → Live
    → Outcome
unfolding scandir
scandir64 a sel order dir old_errno live = scandir a sel order dir old_errno live
