-- ===== src/Paths/Realpath.antt =====
-- `realpath` of src/path_overrides.c.
--
-- The path that is still to be read stands at the end of `stack`, and its zero in the last of the
-- PATH_MAX + 1 bytes: `stack` is the list of its bytes, and `p` is what the list leaves free. `out` is
-- the `q` bytes of `output`, the last of them first.
pub mod Names
pub mod Finish
pub mod Sizes
pub mod Rounds
pub mod Climb
pub mod Joined
pub mod Leading
pub mod Canonical
pub mod Whole
pub mod Reference
use libc_override.Base.{
  ℕ, zero, suc, ◌+◌, ◌-◌, ◌*◌, Bool, true, false, not, ◌&&◌, ◌||◌, List, [], ◌∷◌, ◌++◌, length,
  drop, reverse, reverse_onto, Option, none, some, ltb, leb, ◌==◌, if◌then◌else◌, Errno, enomem,
  einval, enoent, enametoolong, eloop, add_word, sub_word,
}
use libc_override.Strings.{Malloc}
use libc_override.Paths.{
  FilePath, path_max, slash, dot, Result, returned, failed, out_of_fuel, duplicate, starts,
  is_empty, is_einval, strchrnul, skip_slashes,
}
use libc_override.Paths.Cwd.{getcwd}
use libc_override.Paths.Cwd

-- `SYMLOOP_MAX`
abbrev pub symloop_max : ℕ
symloop_max = 40

-- what `readlink` answers to a path and the size of a buffer: an error, or the bytes it wrote
pub data Link : Type 0 where
  error : Errno → Link
  target : List ℕ → Link

abbrev pub Readlink : Type 0
Readlink = FilePath → ℕ → Link

pub record Walk : Type 0 where
  pub stack : FilePath
  pub out : List ℕ
  pub loop_count : ℕ
  pub pending_up : ℕ
  pub check_dir : Bool

-- `p`
unfoldable pub room : List ℕ → ℕ
room stack = path_max - length stack

-- how a round of the loop ends: `continue`, `goto restart`, `break` or an error
pub data Round : Type 0 where
  next again ends : Walk → Round
  fails : Errno → Round

unfoldable pub is_dot : List ℕ → Bool
is_dot (c ∷ []) = c == dot
is_dot _ = false

unfoldable pub is_dot_dot : List ℕ → Bool
is_dot_dot (c ∷ d ∷ []) = c == dot && d == dot
is_dot_dot _ = false

-- the output for a path that starts with a slash, by what follows it
unfoldable pub root_of : List ℕ → List ℕ
unfolding starts
root_of [] = slash ∷ []
root_of (c ∷ s) = if c == slash && not (starts slash s) then slash ∷ slash ∷ [] else slash ∷ []

-- `q && output[q - 1] != '/'`
unfoldable pub wants_slash : List ℕ → Bool
wants_slash [] = false
wants_slash (c ∷ out) = not (c == slash)

-- the output without the bytes behind its last slash
unfoldable pub back_to_slash : List ℕ → List ℕ
back_to_slash [] = []
back_to_slash (c ∷ out) = let rest = back_to_slash out in if c == slash then c ∷ out else rest

-- and without that slash, unless it is the root
unfoldable pub drop_slash : List ℕ → List ℕ
drop_slash (c ∷ d ∷ []) = if d == slash then c ∷ d ∷ [] else d ∷ []
drop_slash (c ∷ d ∷ e ∷ out) = d ∷ e ∷ out
drop_slash out = out

-- the code at `skip_readlink`
unfoldable pub unlinked : (up : Bool) → (name rest out : List ℕ) → Walk → Round
unfolding drop_slash back_to_slash is_empty
unlinked true name rest out w =
    next (record w { stack = rest; out = drop_slash (back_to_slash w.out); check_dir = false })
unlinked false name rest out w = next (record w {
  stack = rest;
  out = if is_empty name then w.out else out;
  check_dir = not (is_empty rest);
})

-- `link[link_len - 1] == '/'`
unfoldable pub ends_slash : List ℕ → Bool
ends_slash [] = false
ends_slash (c ∷ []) = c == slash
ends_slash (c ∷ d ∷ s) = ends_slash (d ∷ s)

unfoldable pub pushed : (text rest : List ℕ) → List ℕ
unfolding ends_slash skip_slashes
pushed text rest = text ++ (if ends_slash text then skip_slashes rest else rest)

-- what follows an answer of `readlink`
unfoldable pub linked : Link → (up : Bool) → (name rest out : List ℕ) → Walk → Round
unfolding room pushed unlinked is_empty is_einval
linked (error e) up name rest out w = if is_einval e then unlinked up name rest out w else fails e
linked (target text) up name rest out w =
    if length text == room rest
    then fails enametoolong
    else if is_empty text
    then fails enoent
    else if w.loop_count + 1 == symloop_max
    then fails eloop
    else again (record w { stack = pushed text rest; loop_count = w.loop_count + 1 })

-- the component stands in the output, `out`, behind the `q` bytes that count
unfoldable pub placed : Readlink → (name rest out : List ℕ) → Walk → Round
unfolding linked unlinked room is_dot_dot
placed readlink name rest out w =
    let up = is_dot_dot name in
    if up && leb (length w.out) (3 * w.pending_up)
    then next (record w { stack = rest; out = out; pending_up = w.pending_up + 1 })
    else if up && not w.check_dir
    then unlinked up name rest out w
    else linked (readlink (reverse out) (room rest)) up name rest out w

unfoldable pub component : Readlink → List ℕ × List ℕ → Walk → Round
unfolding placed wants_slash room is_dot is_empty
component readlink (name, rest) w =
    let full = if wants_slash w.out then slash ∷ name else name in
    if is_empty name && not w.check_dir
    then ends w
    else if is_dot name
    then next (record w { stack = rest })
    else if wants_slash w.out && (room w.stack == 0)
    then fails enametoolong
    else if leb path_max (length w.out + length full)
    then fails enametoolong
    else placed readlink name rest (reverse_onto full w.out) w

unfoldable pub rooted : List ℕ → Walk → Walk
unfolding root_of
rooted rest w = record w { stack = rest; out = root_of rest; pending_up = 0; check_dir = false }

-- what stands at `stack + p`
unfoldable pub looked : Readlink → List ℕ → Walk → Round
unfolding component strchrnul rooted
looked readlink [] w = component readlink ([], []) w
looked readlink (c ∷ s) w =
    if c == slash then next (rooted s w) else component readlink (strchrnul slash (c ∷ s)) w

unfoldable pub round : Readlink → Walk → Round
unfolding looked
round readlink w = looked readlink w.stack w

pub data Walked : Type 0 where
  ended : Walk → Walked
  broke : Errno → Walked
  no_fuel : Walked

-- the step of the `for`, unless it was left by `goto`
unfoldable pub onward : (Walk → Walked) → Round → Walked
unfolding skip_slashes
onward go (next w) = go (record w { stack = skip_slashes w.stack })
onward go (again w) = go w
onward go (ends w) = ended w
onward go (fails e) = broke e

unfoldable pub walk : ℕ → Readlink → Walk → Walked
unfolding onward round
walk zero readlink w = no_fuel
walk (suc f) readlink w = onward (walk f readlink) (round readlink w)

unfoldable pub start : FilePath → Walk
start filename = record {
  stack = filename;
  out = [];
  loop_count = 0;
  pending_up = 0;
  check_dir = false;
}

-- enough rounds for `symloop_max` links, each with as many bytes as the stack has
abbrev pub fuel : ℕ
fuel = 400000
