-- ===== src/Paths/Realpath/Joined.antt =====
-- A relative result of `realpath` in src/path_overrides.c, joined to the current directory.
use libc_override.Base.{
  ℕ, zero, suc, ◌+◌, ◌*◌, ◌≤◌, ◌<◌, ◌≡◌, refl, sym, ap, ◌∙◌, Bool, false, List, [], ◌∷◌, ◌++◌,
  length, drop, length-append, length-reverse_onto, reverse, reverse_onto, reverse_onto-append,
  reverse_onto-reverse_onto, append-reverse_onto, append-nil, drop-append, drop-length, arith, inl,
  inr, ◌⊎◌, leb, ◌==◌, if◌then◌else◌, Bool-cases, enametoolong, sub_word,
}
use libc_override.Strings.{Malloc}
use libc_override.Paths.{FilePath, path_max, slash, Result, failed}
use libc_override.Paths.Realpath.{wants_slash}
use libc_override.Paths.Realpath.Finish.{deliver, joined}
use libc_override.Paths.Realpath.Names.{
  Start, root, roots, ups, pending, sep, dots, start_out, render_on, render, NoSlash, IsName,
  AllNames, length-dots, length-render, length-sep-le, render-wants, sep-wants,
}
use libc_override.Paths.Realpath.Climb.{past}
use libc_override.Paths.Realpath.Names

-- the names of a relative path with slashes between them
abbrev pub joins : List FilePath → FilePath
joins [] = []
joins (name ∷ []) = name
joins (name ∷ other ∷ names) = joins (other ∷ names) ++ slash ∷ name

pub render_on-append :
    (out : List ℕ) (names ds : List FilePath)
    → render_on (render_on out ds) names ≡ render_on out (names ++ ds)
render_on-append out [] ds = refl
render_on-append out (name ∷ names) ds =
    ap (λ x. reverse_onto name (sep x)) (render_on-append out names ds)

-- a path with a name is the names with slashes, behind the start
render_on-joins :
    (out : List ℕ) (name : FilePath) (names : List FilePath)
    → AllNames (name ∷ names)
    → render_on out (name ∷ names) ≡ reverse_onto (joins (name ∷ names)) (sep out)
render_on-joins out name [] h = refl
render_on-joins out name (other ∷ names) (Names.more is (Names.more other_is h)) =
    let rest = render_on-joins out other names (Names.more other_is h) in
    ap (reverse_onto name)
      (sep-wants (render_on out (other ∷ names)) (render-wants out other names other_is))
    ∙ ap (λ x. reverse_onto name (slash ∷ x)) rest
    ∙ sym (reverse_onto-append (joins (other ∷ names)) (slash ∷ name) (sep out))

-- read forwards, it is the start before the names with slashes
reverse-render_on :
    (out : List ℕ) (name : FilePath) (names : List FilePath)
    → AllNames (name ∷ names)
    → reverse (render_on out (name ∷ names)) ≡ reverse (sep out) ++ joins (name ∷ names)
reverse-render_on out name names h =
    let text = joins (name ∷ names) in
    ap reverse (render_on-joins out name names h)
    ∙ reverse_onto-reverse_onto text (sep out) []
    ∙ ap (reverse_onto (sep out)) (append-nil text)
    ∙ append-reverse_onto (sep out) text

pub length-sep-lt : (out : List ℕ) → length (sep out) ≤ length out + 1
length-sep-lt [] = omega arith
length-sep-lt (c ∷ out) = ground arith

-- `..` without names is a byte shorter than with a slash behind it
length-sep-dots : (n : ℕ) → (n ≡ 0) × (length (dots n) ≡ 0) ⊎ (length (dots n) + 1 ≡ 3 * n)
length-sep-dots zero = inl (refl, refl)
length-sep-dots (suc n) = inr (omega (arith, length-dots n))

sep-if : (out : List ℕ) → (if wants_slash out then slash ∷ out else out) ≡ sep out
unfolding wants_slash
sep-if [] = refl
sep-if (c ∷ out) = elim (Bool-cases (c == slash)) [ inl e ↦ rw e refl | inr e ↦ rw e refl ]

-- a path that the caller gets
abbrev pub Delivers : Malloc → Bool → FilePath → Result → Type 0
Delivers malloc resolved path r =
    (r ≡ failed enametoolong) ⊎ (r ≡ deliver malloc resolved path) × (length path < path_max)

module _ (malloc : Malloc) (resolved : Bool) where
  bounded-Delivers :
      (path : FilePath) (n : ℕ)
      → length path + 1 ≡ n
      → Delivers malloc resolved path
          (if leb path_max n then failed enametoolong else deliver malloc resolved path)
  bounded-Delivers path n at = elim (Bool-cases (leb path_max n)) [
    | inl e ↦ rw e (inl refl)
    | inr e ↦ rw e (inr (refl, ground arith))
  ]

  module _ (cwd : List ℕ) (short : length cwd ≤ path_max + 1) where
    length-joined : (base text : List ℕ) → length (reverse base ++ text) ≡ length base + length text
    length-joined base text =
        omega (arith, length-append (reverse base) text, length-reverse_onto base [])

    -- the output has nothing behind `skip`
    joined-empty :
        (skip : ℕ) (output : FilePath)
        → length output ≡ skip
        → skip < path_max
        → Delivers malloc resolved (reverse cwd) (joined malloc resolved (cwd, skip) output)
    unfolding joined
    joined-empty skip output at fit =
        let count : sub_word (length output) skip ≡ 0 = omega (arith, at) in
        let none : drop skip output ≡ [] = ap (λ n. drop n output) (sym at) ∙ drop-length output in
        let text : reverse cwd ++ [] ≡ reverse cwd = append-nil (reverse cwd) in
        rw (count, none, text)
          (bounded-Delivers (reverse cwd) _ (ground (arith, length-reverse_onto cwd [])))

    -- the output has `text` behind `skip`
    joined-text :
        (skip : ℕ) (output text : FilePath)
        → length output ≡ skip + length text
        → 0 < length text
        → length output < path_max
        → drop skip output ≡ text
        → Delivers malloc resolved
            (reverse (sep cwd) ++ text)
            (joined malloc resolved (cwd, skip) output)
    unfolding joined
    joined-text skip output text at some fit left =
        let count : sub_word (length output) skip ≡ length text = omega (arith, at) in
        let more : length text == 0 ≡ false = ground arith in
        rw (count, more, left, sep-if cwd)
          (bounded-Delivers (reverse (sep cwd) ++ text) _
            (ground (arith, length-joined (sep cwd) text, length-sep-lt cwd)))

    -- nothing but `..` was left of the relative path
    pub joined-ups :
        (n : ℕ)
        → length (dots n) < path_max
        → Delivers malloc resolved
            (reverse cwd)
            (joined malloc resolved (cwd, past n (length (dots n)) 0) (reverse (dots n)))
    joined-ups n fit =
        let end : length (reverse (dots n)) ≡ past n (length (dots n)) 0 =
          ground (arith, length-reverse_onto (dots n) [], length-dots n, length-sep-dots n) in
        joined-empty _ (reverse (dots n)) end (ground arith)

    pub joined-names :
        (n : ℕ) (name : FilePath) (names : List FilePath)
        → AllNames (name ∷ names)
        → length (render (ups n) (name ∷ names)) < path_max
        → Delivers malloc resolved (reverse (render_on cwd (name ∷ names))) (
            joined malloc resolved
              (cwd, past n (length (render (ups n) (name ∷ names))) 0)
              (reverse (render (ups n) (name ∷ names))))
    joined-names n name names (Names.more is h) fit =
        let out = render (ups n) (name ∷ names) in
        let text = joins (name ∷ names) in
        let all : AllNames (name ∷ names) = Names.more is h in
        let front : length (reverse (sep (dots n))) ≡ 3 * n =
          omega (arith, length-dots n, length-reverse_onto (sep (dots n)) []) in
        let whole : reverse out ≡ reverse (sep (dots n)) ++ text =
          reverse-render_on (dots n) name names all in
        let far = length-render (ups n) name names is.filled in
        let skip : past n (length out) 0 ≡ 3 * n = ground (arith, far) in
        let size : length (reverse (sep (dots n)) ++ text) ≡ 3 * n + length text =
          omega (arith, front, length-append (reverse (sep (dots n))) text) in
        let same : length (reverse (sep (dots n)) ++ text) ≡ length out =
          ap length (sym whole) ∙ omega (arith, length-reverse_onto out []) in
        rw (reverse-render_on cwd name names all, skip, whole)
          (joined-text (3 * n) (reverse (sep (dots n)) ++ text) text size
            (omega (arith, size, same, far)) (omega (arith, same, fit))
            (drop-append (reverse (sep (dots n))) text (3 * n) front))
