-- ===== src/Paths/Realpath/Sizes.antt =====
-- What the parts of the loop of `realpath` in src/path_overrides.c do to the number of bytes.
use libc_override.Base.{
  ℕ, ◌+◌, ◌≤◌, ◌≡◌, refl, true, false, List, [], ◌∷◌, length, length-append, arith,
}
use libc_override.Paths.{FilePath, is_empty, skip_slashes}
use libc_override.Paths.Realpath.{is_dot, is_dot_dot, root_of, back_to_slash, drop_slash, pushed}

pub length-skip_slashes : (s : FilePath) → length (skip_slashes s) ≤ length s
unfolding skip_slashes
length-skip_slashes [] = omega arith
length-skip_slashes (c ∷ s) = ground (arith, length-skip_slashes s)

pub length-back_to_slash : (out : List ℕ) → length (back_to_slash out) ≤ length out
unfolding back_to_slash
length-back_to_slash [] = omega arith
length-back_to_slash (c ∷ out) = ground (arith, length-back_to_slash out)

pub length-drop_slash : (out : List ℕ) → length (drop_slash out) ≤ length out
unfolding drop_slash
length-drop_slash [] = omega arith
length-drop_slash (c ∷ []) = omega arith
length-drop_slash (c ∷ d ∷ []) = ground arith
length-drop_slash (c ∷ d ∷ e ∷ out) = omega arith

pub length-root_of : (s : List ℕ) → length (root_of s) ≤ 2
unfolding root_of
length-root_of [] = omega arith
length-root_of (c ∷ s) = ground arith

pub length-pushed : (text rest : List ℕ) → length (pushed text rest) ≤ length text + length rest
unfolding pushed
length-pushed text rest = ground (
  arith,
  length-skip_slashes rest,
  length-append text rest,
  length-append text (skip_slashes rest),
)

pub no_dot_dot : (name : List ℕ) → is_empty name ≡ true → is_dot_dot name ≡ false
unfolding is_empty is_dot_dot
no_dot_dot [] h = refl
no_dot_dot (c ∷ s) h = absurd (ground (arith, h))

pub length-dot : (name : List ℕ) → is_dot name ≡ true → length name ≡ 1
unfolding is_dot
length-dot [] h = absurd (ground (arith, h))
length-dot (c ∷ []) h = refl
length-dot (c ∷ d ∷ s) h = absurd (ground (arith, h))

pub length-dot_dot : (name : List ℕ) → is_dot_dot name ≡ true → length name ≡ 2
unfolding is_dot_dot
length-dot_dot [] h = absurd (ground (arith, h))
length-dot_dot (c ∷ []) h = absurd (ground (arith, h))
length-dot_dot (c ∷ d ∷ []) h = refl
length-dot_dot (c ∷ d ∷ e ∷ s) h = absurd (ground (arith, h))
