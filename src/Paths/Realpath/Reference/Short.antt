-- ===== src/Paths/Realpath/Reference/Short.antt =====
-- The lengths in the loop of `realpath` in src/path_overrides.c where no link is met: a path that is
-- shorter than PATH_MAX leaves room for all of its output.
use libc_override.Base.{
  ℕ, ◌+◌, ◌*◌, ◌≤◌, ◌<◌, ◌≡◌, refl, ap, Bool, true, false, not, ◌&&◌, List, [], ◌∷◌, length,
  length-reverse_onto, reverse, reverse_onto, arith, inl, inr, ◌⊎◌, leb, ◌==◌, if◌then◌else◌,
  Bool-cases, einval,
}
use libc_override.Paths.{
  FilePath, path_max, slash, starts, is_empty, is_einval, strchrnul, skip_slashes,
}
use libc_override.Paths.Realpath.{
  Readlink, error, Walk, Round, next, again, ends, fails, room, is_dot, is_dot_dot, wants_slash,
  root_of, back_to_slash, drop_slash, unlinked, linked, placed, component, looked,
}
use libc_override.Paths.Realpath.Sizes.{
  length-skip_slashes, length-back_to_slash, length-drop_slash, length-dot, length-dot_dot,
}
use libc_override.Paths.Realpath.Names.{sep, joined-sep, length-strchrnul}

-- `readlink` finds no link
abbrev pub NoLinks : Readlink → Type 0
NoLinks readlink = (path : FilePath) (size : ℕ) → readlink path size ≡ error einval

-- The output and the path that is left are together no longer than this, or the path is at its end.
abbrev pub Kept : ℕ → Walk → Type 0
Kept n w = (length (sep w.out) + length w.stack ≤ n) ⊎ ((w.stack ≡ []) × (w.check_dir ≡ false))

-- a round that does not fail, and keeps to that
abbrev pub Stays : ℕ → Round → Type 0
Stays n (next v) = Kept n (record v { stack = skip_slashes v.stack })
Stays n (again v) = ⊥
Stays n (ends v) = Unit
Stays n (fails e) = ⊥

-- what is left behind a name: nothing, or a slash and more
abbrev Behind : FilePath → Type 0
Behind rest = (rest ≡ []) ⊎ (length (skip_slashes rest) < length rest)

strchrnul-Behind : (s : FilePath) → Behind (strchrnul slash s).1
unfolding strchrnul skip_slashes
strchrnul-Behind [] = inl refl
strchrnul-Behind (c ∷ s) = elim (Bool-cases (c == slash)) [
  | inl e ↦ rw e (inr (ground (arith, e, length-skip_slashes s)))
  | inr e ↦ rw e (strchrnul-Behind s)
]

length-sep-suc : (out : List ℕ) → length (sep out) ≤ length out + 1
length-sep-suc [] = omega arith
length-sep-suc (c ∷ out) = ground arith

length-le-sep : (out : List ℕ) → length out ≤ length (sep out)
length-le-sep [] = omega arith
length-le-sep (c ∷ out) = ground arith

length-joined :
    (out name : List ℕ)
    → length out + length (if wants_slash out then slash ∷ name else name)
      ≡ length (sep out) + length name
length-joined out name =
    let full = if wants_slash out then slash ∷ name else name in
    omega (
      arith,
      ap length (joined-sep out name),
      length-reverse_onto full out,
      length-reverse_onto name (sep out),
    )

-- the output of an absolute path, and what is left behind its slashes
pub length-root_skip :
    (s : FilePath) → length (sep (root_of s)) + length (skip_slashes s) ≤ length s + 1
unfolding root_of skip_slashes
length-root_skip [] = omega arith
length-root_skip (c ∷ s) = elim (Bool-cases (c == slash)) [
  | inl e ↦ elim (Bool-cases (starts slash s)) [
    | inl e' ↦ rw (e, e') (omega (arith, length-skip_slashes s))
    | inr e' ↦ rw (e, e') (omega (arith, length-skip_slashes s))
  ]
  | inr e ↦ rw e (omega arith)
]

module _ (readlink : Readlink) (no_link : NoLinks readlink) (n : ℕ) (small : n < path_max)
    (w : Walk) (far : leb (length w.out) (3 * w.pending_up) ≡ false) where
  up-Stays :
      (name rest out : List ℕ)
      → length (sep w.out) + length name + length rest ≤ n
      → length name ≡ 2
      → Stays n (unlinked true name rest out w)
  unfolding unlinked
  up-Stays name rest out fit two =
      let cut = drop_slash (back_to_slash w.out) in
      inl (
        omega (
          arith,
          fit,
          two,
          length-drop_slash (back_to_slash w.out),
          length-back_to_slash w.out,
          length-le-sep w.out,
          length-sep-suc cut,
          length-skip_slashes rest,
        ))

  name-Stays :
      (name rest : List ℕ)
      → length (sep w.out) + length name + length rest ≤ n
      → (is_empty name ≡ true → rest ≡ [])
      → Behind rest
      → Stays n (unlinked false name rest (reverse_onto name (sep w.out)) w)
  unfolding unlinked is_empty skip_slashes
  name-Stays [] rest fit empty behind = rw (empty refl) (inr (refl, refl))
  name-Stays (c ∷ s) rest fit empty (inl none) = rw none (inr (refl, refl))
  name-Stays (c ∷ s) rest fit empty (inr less) =
      let out = reverse_onto (c ∷ s) (sep w.out) in
      inl (omega (arith, fit, less, length-sep-suc out, length-reverse_onto (c ∷ s) (sep w.out)))

  linked-Stays :
      (up : Bool) (name rest out : List ℕ)
      → Stays n (unlinked up name rest out w)
      → Stays n (linked (readlink (reverse out) (room rest)) up name rest out w)
  unfolding linked is_einval
  linked-Stays up name rest out stays = rw (no_link (reverse out) (room rest)) stays

  placed-Stays :
      (name rest : List ℕ)
      → length (sep w.out) + length name + length rest ≤ n
      → (is_empty name ≡ true → rest ≡ [])
      → Behind rest
      → Stays n (placed readlink name rest (reverse_onto name (sep w.out)) w)
  unfolding placed
  placed-Stays name rest fit empty behind =
      let out = reverse_onto name (sep w.out) in
      elim (Bool-cases (is_dot_dot name)) [
        | inl e ↦
            let stays = up-Stays name rest out fit (length-dot_dot name e) in
            rw (e, far)
              (elim (Bool-cases (not w.check_dir)) [
                | inl e' ↦ rw e' stays
                | inr e' ↦ rw e' (linked-Stays true name rest out stays)
              ])
        | inr e ↦ rw e (linked-Stays false name rest out (name-Stays name rest fit empty behind))
      ]

  fitting :
      (name rest : List ℕ)
      → Kept n w
      → length name + length rest ≡ length w.stack
      → (is_empty name && not w.check_dir) ≡ false
      → length (sep w.out) + length name + length rest ≤ n
  unfolding is_empty
  fitting name rest (inl fit) split goes = omega (arith, fit, split)
  fitting [] rest (inr (none, unchecked)) split goes = absurd (ground (arith, goes, unchecked))
  fitting (c ∷ s) rest (inr (none, unchecked)) split goes =
      let nothing = ap length none in absurd (omega (arith, nothing, split))

  stack-room : Kept n w → room w.stack == 0 ≡ false
  unfolding room
  stack-room (inl fit) = ground (arith, fit, small)
  stack-room (inr (none, _)) = rw none refl

  component-Stays :
      (name rest : List ℕ)
      → Kept n w
      → length name + length rest ≡ length w.stack
      → (is_empty name ≡ true → rest ≡ [])
      → Behind rest
      → Stays n (component readlink (name, rest) w)
  unfolding component
  component-Stays name rest kept split empty behind =
      let full = if wants_slash w.out then slash ∷ name else name in
      elim (Bool-cases (is_empty name && not w.check_dir)) [
        | inl e ↦ rw e tt
        | inr goes ↦
            let fit = fitting name rest kept split goes in
            let roomy : (wants_slash w.out && room w.stack == 0) ≡ false =
              ground (arith, stack-room kept) in
            let output : leb path_max (length w.out + length full) ≡ false =
              ground (arith, length-joined w.out name, fit, small) in
            rw goes (elim (Bool-cases (is_dot name)) [
              | inl one ↦
                  rw one (inl (omega (arith, fit, length-dot name one, length-skip_slashes rest)))
              | inr other ↦
                  rw (other, roomy, output, joined-sep w.out name)
                    (placed-Stays name rest fit empty behind)
            ])
      ]

  pub looked-Stays :
      (stack : List ℕ)
      → stack ≡ w.stack
      → starts slash stack ≡ false
      → Kept n w
      → Stays n (looked readlink stack w)
  unfolding looked starts
  looked-Stays [] same relative kept =
      component-Stays [] [] kept (ap length same) (λ _. refl) (inl refl)
  looked-Stays (c ∷ s) same relative kept = rw relative (
      component-Stays (c ∷ (strchrnul slash s).0) (strchrnul slash s).1 kept
        (omega (arith, ap length same, length-strchrnul slash s)) (λ e. absurd (ground (arith, e)))
        (strchrnul-Behind s))
