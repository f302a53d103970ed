-- ===== src/Paths/Realpath/Reference/Agrees.antt =====
-- A round of the loop of `realpath` in src/path_overrides.c against the reference.
use libc_override.Base.{
  ℕ, ◌+◌, ◌*◌, ◌≡◌, refl, ap, Bool, true, false, not, ◌&&◌, List, [], ◌∷◌, length, reverse,
  reverse_onto, arith, inl, inr, ◌⊎◌, leb, ◌==◌, if◌then◌else◌, Bool-cases, Errno, enametoolong,
}
use libc_override.Paths.{FilePath, slash, dot, starts, is_empty, is_einval, strchrnul}
use libc_override.Paths.Realpath.{
  Readlink, Link, error, target, Walk, Round, next, again, ends, fails, room, symloop_max, is_dot,
  is_dot_dot, wants_slash, pushed, unlinked, linked, placed, component, looked,
}
use libc_override.Paths.Realpath.Names.{Start, sep, NoSlash, IsName, joined-sep, strchrnul-NoSlash}
use libc_override.Paths.Realpath.Reference.{up, visit}
use libc_override.Paths.Realpath.Reference.Moves.{
  Reached, path_to, Moved, back-Moved, wait-Moved, name-Moved, empty-Moved, visit-dot, visit-empty,
  visit-two_dots, visit-name, two_dots, is_dot_dot-two_dots,
}

module _ (readlink : Readlink) where
  -- `readlink` has said of a path that it is no link
  abbrev pub NotLink : FilePath → Type 0
  NotLink path = (size : ℕ) × (e : Errno) × (readlink path size ≡ error e) × (is_einval e ≡ true)

  -- a name that is taken as it is: one without a meaning of its own was looked at, and is no link
  abbrev pub Passed : Start × List FilePath → FilePath → Type 0
  Passed at name =
      (is_empty name ≡ true)
      ⊎ (is_dot name ≡ true)
      ⊎ (is_dot_dot name ≡ true)
      ⊎ NotLink (path_to at name)

  -- a name that is a link to a text
  abbrev pub IsLink : Start × List FilePath → FilePath → FilePath → Type 0
  IsLink at name text = (size : ℕ) × (readlink (path_to at name) size ≡ target text)

  module _ (Allowed : Type 0) where
    -- A round took one name, or put the text of a link in its place. Links, and errors but for a path
    -- that is too long, are there where they are allowed.
    abbrev pub Turned : Start × List FilePath → (name rest : FilePath) → Round → Type 0
    Turned at name rest (next v) = Reached (visit name at) v × (v.stack ≡ rest) × Passed at name
    Turned at name rest (again v) =
        Allowed
        × Reached at v
        × ((text : FilePath) × IsLink at name text × (v.stack ≡ pushed text rest))
    Turned at name rest (ends v) = Reached (visit name at) v × (rest ≡ []) × Passed at name
    Turned at name rest (fails e) = (e ≡ enametoolong) ⊎ Allowed

    -- an answer that is neither a link nor an error, unless those are allowed
    abbrev pub Mild : Type 0
    Mild =
        (path : FilePath) (size : ℕ)
        → ((e : Errno) × (readlink path size ≡ error e) × (is_einval e ≡ true)) ⊎ Allowed

    Moved-Turned :
        (at : Start × List FilePath) (name rest : FilePath) (r : Round)
        → Passed at name
        → Moved (visit name at) rest r
        → Turned at name rest r
    Moved-Turned at name rest (next v) p (h, same) = (h, same, p)
    Moved-Turned at name rest (again v) p h = absurd h
    Moved-Turned at name rest (ends v) p h = absurd h
    Moved-Turned at name rest (fails e) p h = absurd h

module _ (readlink : Readlink) (Allowed : Type 0) (mild : Mild readlink Allowed) (b : Start)
    (names : List FilePath) (w : Walk) (h : Reached (b, names) w) where
  abbrev at : Start × List FilePath
  at = (b, names)

  -- the output with a name behind it
  abbrev after : FilePath → List ℕ
  after name = reverse_onto name (sep w.out)

  after-path_to : (name : FilePath) → reverse (after name) ≡ path_to at name
  after-path_to name = ap (λ x. reverse (reverse_onto name (sep x))) h.out

  einval_of : Link → Bool
  einval_of (error e) = is_einval e
  einval_of (target text) = false

  allowed-unless :
      (answer : Link)
      → ((e : Errno) × (answer ≡ error e) × (is_einval e ≡ true)) ⊎ Allowed
      → einval_of answer ≡ false
      → Allowed
  unfolding einval_of
  allowed-unless answer (inl (e, same, einval)) other =
      let einval' = ap einval_of same in absurd (ground (arith, einval', einval, other))
  allowed-unless answer (inr allowed) other = allowed

  answered-Turned :
      (answer : Link) (size : ℕ) (up : Bool) (name rest : FilePath)
      → readlink (path_to at name) size ≡ answer
      → ((e : Errno) × (answer ≡ error e) × (is_einval e ≡ true)) ⊎ Allowed
      → Moved (visit name at) rest (unlinked up name rest (after name) w)
      → Turned readlink Allowed at name rest (linked answer up name rest (after name) w)
  unfolding linked einval_of
  answered-Turned (error e) size up name rest is may m = elim (Bool-cases (is_einval e)) [
    | inl einval ↦
        rw einval
          (Moved-Turned readlink Allowed at name rest _ (inr (inr (inr (size, e, is, einval)))) m)
    | inr other ↦ rw other (inr (allowed-unless (error e) may other))
  ]
  answered-Turned (target text) size up name rest is may m =
      let allowed = allowed-unless (target text) may refl in
      elim (Bool-cases (length text == room rest)) [
        | inl e ↦ rw e (inl refl)
        | inr e ↦ rw e (elim (Bool-cases (is_empty text)) [
          | inl e' ↦ rw e' (inr allowed)
          | inr e' ↦ rw e' (elim (Bool-cases (w.loop_count + 1 == symloop_max)) [
            | inl e'' ↦ rw e'' (inr allowed)
            | inr e'' ↦ rw e'' (
              allowed,
              record { out = h.out; ups = h.ups; names = h.names },
              (text, (size, is), refl),
            )
          ])
        ])
      ]

  linked-Turned :
      (up : Bool) (name rest : FilePath)
      → Moved (visit name at) rest (unlinked up name rest (after name) w)
      → Turned readlink Allowed at name rest
          (linked (readlink (reverse (after name)) (room rest)) up name rest (after name) w)
  linked-Turned up name rest m = rw (after-path_to name) (
      answered-Turned (readlink (path_to at name) (room rest)) (room rest) up name rest refl
        (mild (path_to at name) (room rest)) m)

  placed-two_dots-Turned :
      (rest : List ℕ)
      → Turned readlink Allowed at two_dots rest (placed readlink two_dots rest (after two_dots) w)
  unfolding placed is_dot_dot
  placed-two_dots-Turned rest =
      let out = dot ∷ dot ∷ sep w.out in
      let passed : Passed readlink at two_dots = inr (inr (inl refl)) in
      let up_at : visit two_dots at ≡ up b names = visit-two_dots b names in
      elim (Bool-cases (leb (length w.out) (3 * w.pending_up))) [
        | inl near ↦ rw near (
            let (reached, same) = wait-Moved b names w h rest out near refl in
            (rw up_at reached, same, passed))
        | inr far ↦
            let back : Moved (visit two_dots at) rest (unlinked true two_dots rest out w) =
              rw up_at (back-Moved b names w h two_dots rest out far) in
            rw far (elim (Bool-cases (not w.check_dir)) [
              | inl e ↦ rw e (
                  Moved-Turned readlink Allowed at two_dots rest (unlinked true two_dots rest out w)
                    passed back)
              | inr e ↦ rw e (linked-Turned true two_dots rest back)
            ])
      ]

  placed-up-Turned :
      (name rest : List ℕ)
      → name ≡ two_dots
      → Turned readlink Allowed at name rest (placed readlink name rest (after name) w)
  placed-up-Turned name rest e = rw e (placed-two_dots-Turned rest)

  placed-name-Turned :
      (name rest : List ℕ)
      → IsName name
      → Turned readlink Allowed at name rest (placed readlink name rest (after name) w)
  unfolding placed
  placed-name-Turned name rest is =
      let taken : visit name at ≡ (b, name ∷ names) = visit-name b names name is in
      rw is.no_dot_dot
        (linked-Turned false name rest (rw taken (name-Moved b names w h name rest is)))

  placed-empty-Turned :
      (rest : List ℕ) → Turned readlink Allowed at [] rest (placed readlink [] rest (after []) w)
  unfolding placed is_dot_dot
  placed-empty-Turned rest =
      linked-Turned false [] rest
        (rw (visit-empty b names [] refl) (empty-Moved b names w h rest (after [])))

  placed-Turned :
      (name rest : List ℕ)
      → NoSlash name
      → is_dot name ≡ false
      → Turned readlink Allowed at name rest (placed readlink name rest (after name) w)
  unfolding is_empty
  placed-Turned [] rest whole no_dot = placed-empty-Turned rest
  placed-Turned (c ∷ s) rest whole no_dot = elim (Bool-cases (is_dot_dot (c ∷ s))) [
    | inl e ↦ placed-up-Turned (c ∷ s) rest (is_dot_dot-two_dots (c ∷ s) e)
    | inr e ↦
        placed-name-Turned (c ∷ s) rest
          (record { whole = whole; filled = refl; no_dot = no_dot; no_dot_dot = e })
  ]

  component-Turned :
      (name rest : List ℕ)
      → NoSlash name
      → (is_empty name ≡ true → rest ≡ [])
      → Turned readlink Allowed at name rest (component readlink (name, rest) w)
  unfolding component
  component-Turned name rest whole empty =
      let full = if wants_slash w.out then slash ∷ name else name in
      elim (Bool-cases (is_empty name && not w.check_dir)) [
        | inl e ↦ rw e (
            let none_left : is_empty name ≡ true = ground (arith, e) in
            (rw (visit-empty b names name none_left) h, empty none_left, inl none_left))
        | inr e ↦ rw e (elim (Bool-cases (is_dot name)) [
          | inl one ↦ rw one (
            rw (visit-dot b names name one) (record { out = h.out; ups = h.ups; names = h.names }),
            refl,
            inr (inl one),
          )
          | inr other ↦ rw other (elim (Bool-cases (wants_slash w.out && room w.stack == 0)) [
            | inl e ↦ rw e (inl refl)
            | inr e' ↦ rw e' (elim (Bool-cases (leb 4096 (length w.out + length full))) [
              | inl e ↦ rw e (inl refl)
              | inr e'' ↦ rw (e'', joined-sep w.out name) (placed-Turned name rest whole other)
            ])
          ])
        ])
      ]

  pub looked-Turned :
      (stack : List ℕ)
      → starts slash stack ≡ false
      → Turned readlink Allowed at
          (strchrnul slash stack).0
          (strchrnul slash stack).1
          (looked readlink stack w)
  unfolding looked starts
  looked-Turned [] k = component-Turned [] [] NoSlash.empty (λ _. refl)
  looked-Turned (c ∷ s) k = rw k (
      component-Turned (c ∷ (strchrnul slash s).0) (strchrnul slash s).1
        (NoSlash.more k (strchrnul-NoSlash s)) (λ e. absurd (ground (arith, e))))
