-- ===== src/Paths/Realpath/Finish.antt =====
-- `realpath` of src/path_overrides.c around its loop: the checks before it, and the current directory
-- before a relative output behind it.
use libc_override.Base.{
  ℕ, zero, suc, ◌+◌, Bool, true, false, not, ◌&&◌, List, [], ◌∷◌, ◌++◌, length, drop, reverse,
  Option, none, some, ltb, leb, ◌==◌, if◌then◌else◌, einval, enoent, enametoolong, add_word,
  sub_word,
}
use libc_override.Strings.{Malloc}
use libc_override.Paths.{
  FilePath, path_max, slash, Result, returned, failed, out_of_fuel, duplicate, starts, strchrnul,
}
use libc_override.Paths.Cwd.{getcwd}
use libc_override.Paths.Cwd
use libc_override.Paths.Realpath.{
  Readlink, Walk, Walked, ended, broke, no_fuel, wants_slash, start, fuel, walk,
}

-- the current directory, its last byte first, without its last name
unfoldable pub to_slash : List ℕ → List ℕ
to_slash (c ∷ d ∷ s) = let rest = to_slash (d ∷ s) in if c == slash then c ∷ d ∷ s else rest
to_slash s = s

unfoldable pub cut_one : List ℕ → List ℕ
cut_one (c ∷ d ∷ s) = d ∷ s
cut_one s = s

-- the loop on `pending_up`, on the current directory and `skip`
unfoldable pub climb : ℕ → (q : ℕ) → List ℕ → (skip : ℕ) → List ℕ × ℕ
unfolding to_slash cut_one
climb zero q cwd skip = (cwd, skip)
climb (suc n) q cwd skip =
    climb n q (cut_one (to_slash cwd)) (if ltb (skip + 2) q then skip + 3 else skip + 2)

module _ (malloc : Malloc) where
  -- `strdup` unless the caller has a buffer
  unfoldable pub deliver : (resolved : Bool) → FilePath → Result
  unfolding duplicate
  deliver true path = returned none (path ++ 0 ∷ [])
  deliver false path = duplicate malloc path

  -- the current directory before the output from `skip` on
  unfoldable pub joined : Bool → List ℕ × ℕ → (output : FilePath) → Result
  unfolding deliver wants_slash
  joined resolved (cwd, skip) output =
      let count = sub_word (length output) skip in
      let base = if not (count == 0) && wants_slash cwd then slash ∷ cwd else cwd in
      if leb path_max (add_word (add_word (length base) count) 1)
      then failed enametoolong
      else deliver resolved (reverse base ++ drop skip output)

  -- what `getcwd(stack, sizeof(stack))` returned
  unfoldable pub relative : Bool → Result → Walk → Result
  unfolding joined climb strchrnul
  relative resolved (returned at text) w =
      joined resolved (climb w.pending_up (length w.out) (reverse (strchrnul 0 text).0) 0)
        (reverse w.out)
  relative resolved other w = other

  unfoldable pub delivered : Bool → Result → Walked → Result
  unfolding relative deliver starts
  delivered resolved cwd (ended w) =
      if starts slash (reverse w.out)
      then deliver resolved (reverse w.out)
      else relative resolved cwd w
  delivered resolved cwd (broke e) = failed e
  delivered resolved cwd no_fuel = out_of_fuel

-- the checks of the name, and what the loop leaves
unfoldable pub checked : Malloc → (resolved : Bool) → (cwd : Result) → FilePath → Walked → Result
unfolding delivered
checked malloc resolved cwd filename r =
    if length filename == 0
    then failed enoent
    else if leb path_max (length filename)
    then failed enametoolong
    else delivered malloc resolved cwd r

-- `filename` is `none` for NULL, and `resolved` tells whether the caller has a buffer for the result
unfoldable pub realpath :
    Malloc → Readlink → (syscall : ℕ → Cwd.Answer) → Option FilePath → (resolved : Bool) → Result
unfolding checked walk start getcwd
realpath malloc readlink syscall none resolved = failed einval
realpath malloc readlink syscall (some filename) resolved =
    checked malloc resolved (getcwd malloc syscall (some (path_max + 1))) filename
      (walk fuel readlink (start filename))
