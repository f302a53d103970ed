-- ===== src/Examples/Paths.antt =====
-- The theorems on paths, with a link at /l to b, and /x/y as the current directory.
use libc_override.Base.{
  ℕ, ◌<◌, ◌≤◌, ◌≡◌, refl, sym, ap, ◌&&◌, Bool, true, false, List, [], ◌∷◌, length, reverse, none,
  some, ltb, ◌==◌, arith, einval, enoent,
}
use libc_override.Strings.{Malloc}
use libc_override.Paths.{FilePath, starts, strchrnul, returned, is_empty}
use libc_override.Paths.Cwd
use libc_override.Paths.Realpath.{
  Readlink, Link, error, target, fuel, walk, start, is_dot, is_dot_dot,
}
use libc_override.Paths.Realpath.Finish.{deliver, realpath}
use libc_override.Paths.Realpath.Names
use libc_override.Paths.Realpath.Names.{IsName, AllNames, render}
use libc_override.Paths.Realpath.Rounds.{Bounded}
use libc_override.Paths.Realpath.Canonical.{IsCwd, Reachable}
use libc_override.Paths.Realpath.Whole.{Answers, realpath-Answers}
use libc_override.Paths.Realpath.Reference.Follows.{Leads, walk-Leads}
use libc_override.Paths.Realpath.Reference.{split, visit_all, root_start}
use libc_override.Paths.Realpath.Reference.Walks.{realpath_reference}

abbrev malloc : Malloc
malloc n = some 4096

unfoldable is_link : FilePath → Bool
is_link (c ∷ d ∷ []) = c == 47 && d == 108
is_link _ = false

unfoldable linked : Bool → Link
linked true = target (98 ∷ [])
linked false = error einval

unfoldable readlink : Readlink
unfolding linked is_link
readlink path size = linked (is_link path && ltb 1 size)

length_of : Link → ℕ
length_of (error e) = 0
length_of (target text) = length text

linked-bounded :
    (b : Bool) (size : ℕ) (text : List ℕ)
    → (b ≡ true → 1 < size)
    → linked b ≡ target text
    → length text ≤ size
unfolding linked length_of
linked-bounded true size text h e = let same = ap length_of e in omega (arith, same, h refl)
linked-bounded false size text h e = let same = ap length_of e in omega (arith, same)

readlink-Bounded : Bounded readlink
unfolding readlink
readlink-Bounded path text size e =
    linked-bounded (is_link path && ltb 1 size) size text (λ h. ground (arith, h)) e

abbrev cwd : FilePath
cwd = 47 ∷ 120 ∷ 47 ∷ 121 ∷ []

unfoldable answer : Bool → Cwd.Answer
answer true = Cwd.wrote 5 cwd
answer false = Cwd.error (enoent)

unfoldable syscall : ℕ → Cwd.Answer
unfolding answer
syscall size = answer (ltb 4 size)

letter-IsName : (c : ℕ) → 97 ≤ c → IsName (c ∷ [])
unfolding is_empty is_dot is_dot_dot
letter-IsName c h = record {
  whole = Names.more (ground (arith, h)) Names.empty;
  filled = refl;
  no_dot = ground (arith, h);
  no_dot_dot = refl;
}

cwd-IsCwd : (size : ℕ) → 4 < size → IsCwd size cwd
unfolding strchrnul
cwd-IsCwd size h = record {
  names = (121 ∷ []) ∷ (120 ∷ []) ∷ [];
  all_names =
      Names.more (letter-IsName 121 (omega arith))
        (Names.more (letter-IsName 120 (omega arith)) Names.none);
  text = refl;
  ends = refl;
  fits = h;
}

text_of : Cwd.Answer → FilePath
text_of (Cwd.error e) = []
text_of (Cwd.wrote ret buf) = buf

answer-IsCwd :
    (b : Bool) (size ret : ℕ) (buf : FilePath)
    → (b ≡ true → 4 < size)
    → answer b ≡ Cwd.wrote ret buf
    → starts 47 buf ≡ true
    → IsCwd size buf
unfolding answer text_of starts
answer-IsCwd true size ret buf h e first = rw (sym (ap text_of e)) (cwd-IsCwd size (h refl))
answer-IsCwd false size ret buf h e first =
    absurd (ground (arith, rw (sym (ap text_of e)) at first))

syscall-Reachable : Reachable syscall
unfolding syscall
syscall-Reachable size ret buf e first =
    answer-IsCwd (ltb 4 size) size ret buf (λ h. ground (arith, h)) e first

-- "/l/./c"
abbrev filename : FilePath
filename = 47 ∷ 108 ∷ 47 ∷ 46 ∷ 47 ∷ 99 ∷ []

-- the link is followed, and the dot is passed over
realpath_run :
    realpath malloc readlink syscall (some filename) true
    ≡ returned none (47 ∷ 98 ∷ 47 ∷ 99 ∷ 0 ∷ [])
unfolding realpath readlink syscall
realpath_run = refl

realpath-Answers_example :
    Answers malloc false syscall readlink filename
      (realpath malloc readlink syscall (some filename) false)
realpath-Answers_example =
    realpath-Answers malloc readlink syscall filename false readlink-Bounded syscall-Reachable

walk-Leads_example : Leads readlink filename (walk fuel readlink (start filename))
walk-Leads_example = walk-Leads readlink filename readlink-Bounded (omega arith)

abbrev no_links : Readlink
no_links path size = error einval

-- "a/../b", behind a slash
abbrev rest : FilePath
rest = 97 ∷ 47 ∷ 46 ∷ 46 ∷ 47 ∷ 98 ∷ []

realpath_reference_example :
    let at = visit_all (split rest) (root_start rest, []) in
    realpath malloc no_links syscall (some (47 ∷ rest)) true
    ≡ deliver malloc true (reverse (render (at.0) (at.1)))
realpath_reference_example =
    realpath_reference malloc no_links syscall rest true (λ path size. refl) (omega arith)
