-- ===== src/Paths/Realpath/Rounds.antt =====
-- The rounds of the loop of `realpath` in src/path_overrides.c: what they need of the arrays, and that
-- there are not too many of them.
use libc_override.Base.{
  ℕ, zero, suc, ◌+◌, ◌-◌, ◌*◌, ◌≤◌, ◌<◌, ◌≡◌, refl, sym, Bool, true, false, not, ◌&&◌, List, [],
  ◌∷◌, length, length-reverse_onto, reverse, reverse_onto, arith, inl, inr, leb, ◌==◌,
  if◌then◌else◌, Bool-cases,
}
use libc_override.Paths.{slash, is_empty, is_einval, strchrnul}
use libc_override.Paths.Realpath.{
  Readlink, Link, error, target, Walk, Round, next, again, ends, fails, Walked, ended, broke,
  no_fuel, room, is_dot, is_dot_dot, symloop_max, wants_slash, back_to_slash, unlinked, linked,
  pushed, placed, component, rooted, looked, round, onward, walk,
}
use libc_override.Paths.Realpath.Sizes.{
  length-skip_slashes, length-back_to_slash, length-drop_slash, length-root_of, length-pushed,
  no_dot_dot, length-dot, length-dot_dot,
}
use libc_override.Paths.Realpath.Names.{length-strchrnul}

-- The path that is left fits into `stack`, the output with its zero into `output`, and fewer links than
-- `SYMLOOP_MAX` were followed.
pub record Fits (w : Walk) : Type 0 where
  pub stack : length w.stack ≤ 4096
  pub out : length w.out < 4096
  pub links : w.loop_count < 40

-- what a round has to lower
abbrev pub left : Walk → ℕ
left w = (40 - w.loop_count) * 9000 + 2 * length w.stack + (if w.check_dir then 1 else 0)

abbrev Lower : Walk → Round → Type 0
Lower w (next v) = Fits v × (left v < left w)
Lower w (again v) = Fits v × (left v < left w)
Lower w (ends v) = v ≡ w
Lower w (fails e) = Unit

-- `readlink` writes no more bytes than there is room for
abbrev pub Bounded : Readlink → Type 0
Bounded readlink =
    (path text : List ℕ) (size : ℕ) → readlink path size ≡ target text → length text ≤ size

module _ (readlink : Readlink) (bounded : Bounded readlink) (w : Walk) (fits : Fits w) where
  -- a round that takes bytes from the stack
  moved-Lower :
      (v : Walk)
      → length v.stack < length w.stack
      → length v.out < 4096
      → v.loop_count ≡ w.loop_count
      → Lower w (next v)
  moved-Lower v shorter short same = (
    record { stack = omega (arith, fits.stack); out = short; links = rw same (fits.links) },
    ground (arith, same),
  )

  unlinked-Lower :
      (up : Bool) (name rest out : List ℕ)
      → length out < 4096
      → length name + length rest ≡ length w.stack
      → (is_empty name ≡ true → (rest ≡ []) × (w.check_dir ≡ true) × (up ≡ false))
      → Lower w (unlinked up name rest out w)
  unfolding unlinked is_empty
  unlinked-Lower true [] rest out short split empty = absurd (ground arith)
  unlinked-Lower true (c ∷ s) rest out short split empty =
      moved-Lower _ (omega arith)
        (omega
          (arith, fits.out, length-drop_slash (back_to_slash w.out), length-back_to_slash w.out))
        refl
  unlinked-Lower false [] rest out short split empty =
      let (none, check, _) = empty refl in
      (
        record { stack = omega (arith, fits.stack); out = fits.out; links = fits.links },
        rw (none, check) (omega arith),
      )
  unlinked-Lower false (c ∷ s) rest out short split empty = moved-Lower _ (omega arith) short refl

  pushed-Lower :
      (text rest : List ℕ)
      → length text + length rest ≤ 4096
      → w.loop_count + 1 < 40
      → Lower w (again (record w { stack = pushed text rest; loop_count = w.loop_count + 1 }))
  pushed-Lower text rest fit few = (
    record { stack = omega (arith, length-pushed text rest); out = fits.out; links = few },
    ground (arith, length-pushed text rest),
  )

  linked-Lower :
      (answer : Link) (up : Bool) (name rest out : List ℕ)
      → ((text : List ℕ) → answer ≡ target text → length text ≤ room rest)
      → length out < 4096
      → length name + length rest ≡ length w.stack
      → (is_empty name ≡ true → (rest ≡ []) × (w.check_dir ≡ true) × (up ≡ false))
      → Lower w (linked answer up name rest out w)
  unfolding linked room
  linked-Lower (error e) up name rest out fit short split empty = elim (Bool-cases (is_einval e)) [
    | inl is ↦ rw is (unlinked-Lower up name rest out short split empty)
    | inr is ↦ rw is tt
  ]
  linked-Lower (target text) up name rest out fit short split empty =
      elim (Bool-cases (length text == room rest)) [
        | inl e ↦ rw e tt
        | inr e ↦ rw e (elim (Bool-cases (is_empty text)) [
          | inl e ↦ rw e tt
          | inr e' ↦ rw e' (elim (Bool-cases (w.loop_count + 1 == symloop_max)) [
            | inl e ↦ rw e tt
            | inr e'' ↦
                rw e'' (pushed-Lower text rest (ground (arith, fit text refl)) (ground (arith)))
          ])
        ])
      ]

  placed-Lower :
      (name rest out : List ℕ)
      → length out < 4096
      → length name + length rest ≡ length w.stack
      → (is_empty name ≡ true → (rest ≡ []) × (w.check_dir ≡ true))
      → Lower w (placed readlink name rest out w)
  unfolding placed
  placed-Lower name rest out short split empty =
      let empty' : is_empty name ≡ true
          → (rest ≡ []) × (w.check_dir ≡ true) × (is_dot_dot name ≡ false) =
        λ e. ((empty e).0, (empty e).1, no_dot_dot name e) in
      elim (Bool-cases (is_dot_dot name && leb (length w.out) (3 * w.pending_up))) [
        | inl e ↦
            rw e (moved-Lower _ (omega (arith, length-dot_dot name (ground arith))) short refl)
        | inr e ↦ rw e (elim (Bool-cases (is_dot_dot name && not w.check_dir)) [
          | inl e' ↦ rw e' (unlinked-Lower (is_dot_dot name) name rest out short split empty')
          | inr e' ↦ rw e' (
              linked-Lower (readlink (reverse out) (room rest)) (is_dot_dot name) name rest out
                (λ text. bounded (reverse out) text (room rest)) short split empty')
        ])
      ]

  component-Lower :
      (name rest : List ℕ)
      → length name + length rest ≡ length w.stack
      → (is_empty name ≡ true → rest ≡ [])
      → Lower w (component readlink (name, rest) w)
  unfolding component
  component-Lower name rest split empty =
      let full = if wants_slash w.out then slash ∷ name else name in
      elim (Bool-cases (is_empty name && not w.check_dir)) [
        | inl stops ↦ rw stops refl
        | inr goes ↦ rw goes (elim (Bool-cases (is_dot name)) [
          | inl one ↦ rw one (moved-Lower _ (omega (arith, length-dot name one)) fits.out refl)
          | inr other ↦ rw other (elim (Bool-cases (wants_slash w.out && room w.stack == 0)) [
            | inl full_stack ↦ rw full_stack tt
            | inr e ↦ rw e (elim (Bool-cases (leb 4096 (length w.out + length full))) [
              | inl full_output ↦ rw full_output tt
              | inr fit ↦ rw fit (
                  placed-Lower name rest (reverse_onto full w.out)
                    (ground (arith, length-reverse_onto full w.out)) split
                    (λ e. (empty e, ground (arith, goes))))
            ])
          ])
        ])
      ]

  looked-Lower : (stack : List ℕ) → stack ≡ w.stack → Lower w (looked readlink stack w)
  unfolding looked
  looked-Lower [] at = component-Lower [] [] (rw (sym at) refl) (λ _. refl)
  looked-Lower (c ∷ s) at = elim (Bool-cases (c == slash)) [
    | inl e ↦ rw e (
        moved-Lower (rooted s w) (rw (sym at) (omega arith)) (omega (arith, length-root_of s)) refl)
    | inr e ↦ rw e (
        component-Lower (c ∷ (strchrnul slash s).0) (strchrnul slash s).1
          (rw (sym at) (omega (arith, length-strchrnul slash s))) (λ x. absurd (ground (arith, x))))
  ]

  round-Lower : Lower w (round readlink w)
  unfolding round
  round-Lower = looked-Lower w.stack refl

-- The loop has ended within its fuel.
abbrev pub Done : Walked → Type 0
Done (ended w) = Fits w
Done (broke e) = Unit
Done no_fuel = ⊥

module _ (readlink : Readlink) (bounded : Bounded readlink) where
  onward-Done :
      (f : ℕ) (w : Walk)
      → Fits w
      → left w < suc f
      → ((v : Walk) → Fits v → left v < f → Done (walk f readlink v))
      → (r : Round) → Lower w r
      → Done (onward (walk f readlink) r)
  unfolding onward
  onward-Done f w fits enough ih (next v) (fit, lower) =
      ih _
        (record {
          stack = omega (arith, fit.stack, length-skip_slashes v.stack);
          out = fit.out;
          links = fit.links;
        })
        (ground (arith, length-skip_slashes v.stack))
  onward-Done f w fits enough ih (again v) (fit, lower) = ih v fit (omega arith)
  onward-Done f w fits enough ih (ends v) same = rw same fits
  onward-Done f w fits enough ih (fails e) _ = tt

  pub walk-Done : (f : ℕ) (w : Walk) → Fits w → left w < f → Done (walk f readlink w)
  unfolding walk
  walk-Done zero w fits enough = absurd (omega arith)
  walk-Done (suc f) w fits enough =
      onward-Done f w fits enough (walk-Done f) (round readlink w)
        (round-Lower readlink bounded w fits)
