-- ===== src/Paths/Realpath/Leading.antt =====
-- The first byte of a path that `realpath` of src/path_overrides.c puts together.
use libc_override.Base.{
  ℕ, zero, suc, ◌≡◌, refl, ap, ◌∙◌, true, false, List, [], ◌∷◌, reverse, reverse_onto,
  reverse_onto-reverse_onto, reverse-reverse, append-nil, arith, inl, inr, ◌==◌, Bool-cases,
}
use libc_override.Paths.{FilePath, slash, dot, is_empty, starts}
use libc_override.Paths.Realpath.Names.{
  root, roots, ups, sep, dots, render_on, render, IsName, AllNames,
}
use libc_override.Paths.Realpath.Names

-- the first byte does not depend on those behind it
starts-reverse_onto :
    (xs : List ℕ) (y : ℕ) (ys zs : List ℕ)
    → starts slash (reverse_onto xs (y ∷ ys)) ≡ starts slash (reverse_onto xs (y ∷ zs))
unfolding starts
starts-reverse_onto [] y ys zs = refl
starts-reverse_onto (x ∷ xs) y ys zs = starts-reverse_onto xs x (y ∷ ys) (y ∷ zs)

starts-sep : (out : List ℕ) → starts slash (reverse (sep out)) ≡ starts slash (reverse out)
starts-sep [] = refl
starts-sep (c ∷ out) = elim (Bool-cases (c == slash)) [
  | inl e ↦ rw e refl
  | inr e ↦ rw e (starts-reverse_onto out c (slash ∷ []) [])
]

nonempty-onto :
    (name : List ℕ) (y : ℕ) (ys : List ℕ) → is_empty (reverse_onto name (y ∷ ys)) ≡ false
unfolding is_empty
nonempty-onto [] y ys = refl
nonempty-onto (c ∷ s) y ys = nonempty-onto s c (y ∷ ys)

starts-onto :
    (out text : List ℕ)
    → is_empty out ≡ false
    → starts slash (reverse_onto (sep out) text) ≡ starts slash (reverse (sep out))
unfolding is_empty
starts-onto [] text h = absurd (ground (arith, h))
starts-onto (c ∷ out) text h = elim (Bool-cases (c == slash)) [
  | inl e ↦ rw e (starts-reverse_onto out c text [])
  | inr e ↦ rw e (starts-reverse_onto (c ∷ out) slash text [])
]

-- a name more
starts-name :
    (out name : List ℕ)
    → is_empty out ≡ false
    → (starts slash (reverse (reverse_onto name (sep out))) ≡ starts slash (reverse out))
      × (is_empty (reverse_onto name (sep out)) ≡ false)
unfolding is_empty
starts-name [] name h = absurd (ground (arith, h))
starts-name (c ∷ out) name h =
    let turned : reverse (reverse_onto name (sep (c ∷ out))) ≡ reverse_onto (sep (c ∷ out)) name =
      reverse_onto-reverse_onto name (sep (c ∷ out)) []
      ∙ ap (reverse_onto (sep (c ∷ out))) (append-nil name) in
    (
      ap (starts slash) turned ∙ starts-onto (c ∷ out) name h ∙ starts-sep (c ∷ out),
      elim (Bool-cases (c == slash)) [
        | inl e ↦ rw e (nonempty-onto name c out)
        | inr e ↦ rw e (nonempty-onto name slash (c ∷ out))
      ],
    )

starts-render_on :
    (out : List ℕ) (names : List FilePath)
    → is_empty out ≡ false
    → (starts slash (reverse (render_on out names)) ≡ starts slash (reverse out))
      × (is_empty (render_on out names) ≡ false)
starts-render_on out [] h = (refl, h)
starts-render_on out (name ∷ names) h =
    let (same, some) = starts-render_on out names h in
    let (first, more) = starts-name (render_on out names) name some in (first ∙ same, more)

-- an absolute path starts with a slash
pub starts-root : (names : List FilePath) → starts slash (reverse (render root names)) ≡ true
unfolding starts is_empty
starts-root names = (starts-render_on (slash ∷ []) names refl).0

pub starts-roots : (names : List FilePath) → starts slash (reverse (render roots names)) ≡ true
unfolding starts is_empty
starts-roots names = (starts-render_on (slash ∷ slash ∷ []) names refl).0

starts-dots :
    (n : ℕ) → (starts slash (reverse (dots (suc n))) ≡ false) × (is_empty (dots (suc n)) ≡ false)
unfolding starts is_empty
starts-dots zero = (refl, refl)
starts-dots (suc n) =
    let (first, some) = starts-dots n in
    let (same, more) = starts-name (dots (suc n)) (dot ∷ dot ∷ []) some in (same ∙ first, more)

starts-first : (name : FilePath) → IsName name → starts slash name ≡ false
unfolding starts is_empty
starts-first [] is = refl
starts-first (c ∷ s) is = elim is.whole [ Names.more e _ ↦ e ]

nonempty-first : (name : FilePath) → IsName name → is_empty (reverse name) ≡ false
unfolding is_empty
nonempty-first [] is = absurd (ground (arith, is.filled))
nonempty-first (c ∷ s) is = nonempty-onto s c []

starts-names :
    (name : FilePath) (names : List FilePath)
    → AllNames (name ∷ names)
    → (starts slash (reverse (render_on [] (name ∷ names))) ≡ false)
      × (is_empty (render_on [] (name ∷ names)) ≡ false)
starts-names name [] (Names.more is h) =
    (ap (starts slash) (reverse-reverse name) ∙ starts-first name is, nonempty-first name is)
starts-names name (other ∷ names) (Names.more is h) =
    let (first, some) = starts-names other names h in
    let (same, more) = starts-name (render_on [] (other ∷ names)) name some in (same ∙ first, more)

-- and a relative one does not
pub starts-ups :
    (n : ℕ) (names : List FilePath)
    → AllNames names
    → starts slash (reverse (render (ups n) names)) ≡ false
unfolding starts
starts-ups zero [] h = refl
starts-ups zero (name ∷ names) h = (starts-names name names h).0
starts-ups (suc n) names h =
    let (first, some) = starts-dots n in (starts-render_on (dots (suc n)) names some).0 ∙ first
