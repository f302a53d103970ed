-- ===== src/Paths/Realpath/Reference/Moves.antt =====
-- What a component does to the output in the loop of `realpath` in src/path_overrides.c against the reference.
use libc_override.Base.{
  ℕ, suc, ◌+◌, ◌*◌, ◌≤◌, ◌<◌, ◌≡◌, refl, ap, ap₂, ◌∙◌, true, false, List, [], ◌∷◌, length, reverse,
  reverse_onto, arith, inl, inr, leb, Bool-cases,
}
use libc_override.Paths.{FilePath, dot, is_empty}
use libc_override.Paths.Realpath.{
  Walk, Round, next, is_dot, is_dot_dot, back_to_slash, drop_slash, unlinked,
}
use libc_override.Paths.Realpath.Names.{
  Start, root, roots, ups, pending, sep, start_out, render, NoSlash, IsName, AllNames, cut-name,
  cut-start, joined-sep, waiting, dots, length-dots, length-sep-le, strchrnul-NoSlash,
}
use libc_override.Paths.Realpath.Names
use libc_override.Paths.Realpath.Reference.{up, visit}

abbrev pub two_dots : FilePath
two_dots = dot ∷ dot ∷ []

pub is_dot_dot-two_dots : (name : FilePath) → is_dot_dot name ≡ true → name ≡ two_dots
unfolding is_dot_dot
is_dot_dot-two_dots [] h = absurd (ground (arith, h))
is_dot_dot-two_dots (c ∷ []) h = absurd (ground (arith, h))
is_dot_dot-two_dots (c ∷ d ∷ []) h = ground (arith, h)
is_dot_dot-two_dots (c ∷ d ∷ e ∷ s) h = absurd (ground (arith, h))

-- the output is these names behind this start
pub record Reached (at : Start × List FilePath) (w : Walk) : Type 0 where
  pub out : w.out ≡ render (at.0) (at.1)
  pub ups : w.pending_up ≡ pending (at.0)
  pub names : AllNames (at.1)

-- the path up to a name
abbrev pub path_to : Start × List FilePath → FilePath → FilePath
path_to at name = reverse (render (at.0) (name ∷ at.1))

-- the output became these names, and this was left on the stack
abbrev pub Moved : Start × List FilePath → FilePath → Round → Type 0
Moved at rest (next v) = Reached at v × (v.stack ≡ rest)
Moved at rest _ = ⊥

cut-up :
    (b : Start) (names : List FilePath)
    → AllNames names
    → 3 * pending b < length (render b names)
    → (drop_slash (back_to_slash (render b names)) ≡ render (up b names).0 (up b names).1)
      × (pending b ≡ pending (up b names).0)
      × AllNames (up b names).1
cut-up b (name ∷ names) (Names.more is h) far = (cut-name b name names (Names.more is h), refl, h)
cut-up root [] h far = (cut-start root far, refl, h)
cut-up roots [] h far = (cut-start roots far, refl, h)
cut-up (ups n) [] h far = absurd (omega (arith, length-dots n, length-sep-le (dots n)))

module _ (b : Start) (names : List FilePath) (w : Walk) (h : Reached (b, names) w) where
  -- `..`, where a name is taken away
  pub back-Moved :
      (name rest out : List ℕ)
      → leb (length w.out) (3 * w.pending_up) ≡ false
      → Moved (up b names) rest (unlinked true name rest out w)
  unfolding unlinked
  back-Moved name rest out far =
      let less : 3 * pending b < length (render b names) =
        ground (arith, ap length h.out, h.ups, far) in
      let (same, waits, all) = cut-up b names h.names less in
      (
        record {
          out = ap (λ x. drop_slash (back_to_slash x)) h.out ∙ same;
          ups = h.ups ∙ waits;
          names = all;
        },
        refl,
      )

  -- and where it waits
  pub wait-Moved :
      (rest out : List ℕ)
      → leb (length w.out) (3 * w.pending_up) ≡ true
      → out ≡ dot ∷ dot ∷ sep w.out
      → Moved
          (up b names)
          rest
          (next (record w { stack = rest; out = out; pending_up = w.pending_up + 1 }))
  wait-Moved rest out near is =
      let near' : length (render b names) ≤ 3 * pending b =
        ground (arith, ap length h.out, h.ups, near) in
      let (n, no_names, at) = waiting b names h.names near' in
      let moved : up b names ≡ (ups (suc n), []) = ap₂ up at no_names in
      let before : w.out ≡ render (ups n) [] = h.out ∙ ap₂ render at no_names in
      rw moved (
        record {
          out = is ∙ ap (λ x. dot ∷ dot ∷ sep x) before;
          ups = ap (λ x. x + 1) (h.ups ∙ ap pending at) ∙ omega arith;
          names = Names.none;
        },
        refl,
      )

  -- a name that is no link, and the empty one
  pub name-Moved :
      (name rest : List ℕ)
      → IsName name
      → Moved (b, name ∷ names) rest (unlinked false name rest (reverse_onto name (sep w.out)) w)
  unfolding unlinked
  name-Moved name rest is = rw is.filled (
    record {
      out = ap (λ x. reverse_onto name (sep x)) h.out;
      ups = h.ups;
      names = Names.more is h.names;
    },
    refl,
  )

  pub empty-Moved : (rest out : List ℕ) → Moved (b, names) rest (unlinked false [] rest out w)
  unfolding unlinked is_empty
  empty-Moved rest out = (record { out = h.out; ups = h.ups; names = h.names }, refl)

module _ (b : Start) (names : List FilePath) where
  pub visit-dot : (name : FilePath) → is_dot name ≡ true → visit name (b, names) ≡ (b, names)
  unfolding visit
  visit-dot name e = elim (Bool-cases (is_empty name)) [
    | inl e' ↦ rw (e, e') refl
    | inr e' ↦ rw (e, e') refl
  ]

  pub visit-empty : (name : FilePath) → is_empty name ≡ true → visit name (b, names) ≡ (b, names)
  unfolding visit
  visit-empty name e = rw e refl

  pub visit-two_dots : visit two_dots (b, names) ≡ up b names
  unfolding visit
  visit-two_dots = refl

  pub visit-name : (name : FilePath) → IsName name → visit name (b, names) ≡ (b, name ∷ names)
  unfolding visit
  visit-name name is = rw (is.filled, is.no_dot, is.no_dot_dot) refl
