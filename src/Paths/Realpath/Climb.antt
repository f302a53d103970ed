-- ===== src/Paths/Realpath/Climb.antt =====
-- The names that `realpath` of src/path_overrides.c takes from the current directory.
use libc_override.Base.{
  ℕ, zero, suc, ◌+◌, ◌*◌, ◌≤◌, ◌≡◌, refl, ap, ap₂, ◌∙◌, true, List, [], ◌∷◌, ◌++◌, length, drop,
  length-reverse_onto, reverse_onto, arith, leb, ltb, if◌then◌else◌,
}
use libc_override.Paths.{FilePath, slash}
use libc_override.Paths.Realpath.{wants_slash}
use libc_override.Paths.Realpath.Finish.{to_slash, cut_one, climb}
use libc_override.Paths.Realpath.Names.{
  Start, root, roots, ups, pending, sep, dots, start_out, render_on, render, NoSlash, IsName,
  AllNames, length-dots, length-render, length-sep-le, render-wants, sep-wants,
}
use libc_override.Paths.Realpath.Names

to_slash-name :
    (name : FilePath) (c : ℕ) (out : List ℕ)
    → NoSlash name
    → to_slash (reverse_onto name (c ∷ out)) ≡ to_slash (c ∷ out)
unfolding to_slash
to_slash-name [] c out h = refl
to_slash-name (d ∷ s) c out (Names.more e h) = to_slash-name s d (c ∷ out) h ∙ (rw e refl)

to_slash-slash : (out : List ℕ) → to_slash (slash ∷ out) ≡ slash ∷ out
unfolding to_slash
to_slash-slash [] = refl
to_slash-slash (c ∷ out) = refl

cut-wants : (out : List ℕ) → wants_slash out ≡ true → cut_one (slash ∷ out) ≡ out
unfolding wants_slash cut_one
cut-wants [] h = absurd (ground (arith, h))
cut-wants (c ∷ out) h = refl

-- a name is cut from an absolute path
cut_root :
    (name : FilePath) (ds : List FilePath)
    → AllNames (name ∷ ds)
    → cut_one (to_slash (render root (name ∷ ds))) ≡ render root ds
unfolding cut_one
cut_root name [] (Names.more is h) =
    ap cut_one (to_slash-name name slash [] is.whole ∙ to_slash-slash [])
cut_root name (d ∷ ds) (Names.more is (Names.more d_is h)) =
    rw (sep-wants (render root (d ∷ ds)) (render-wants (slash ∷ []) d ds d_is)) (
      ap cut_one (to_slash-name name slash (render root (d ∷ ds)) is.whole ∙ to_slash-slash _)
      ∙ cut-wants (render root (d ∷ ds)) (render-wants (slash ∷ []) d ds d_is))

cut_root-drop :
    (ds : List FilePath)
    → AllNames ds
    → cut_one (to_slash (render root ds)) ≡ render root (drop 1 ds)
unfolding cut_one to_slash
cut_root-drop [] h = refl
cut_root-drop (d ∷ ds) h = cut_root d ds h

pub AllNames-drop : (n : ℕ) (ds : List FilePath) → AllNames ds → AllNames (drop n ds)
AllNames-drop zero ds h = h
AllNames-drop (suc n) [] h = h
AllNames-drop (suc n) (d ∷ ds) (Names.more _ h) = AllNames-drop n ds h

pub AllNames-append : (ns ds : List FilePath) → AllNames ns → AllNames ds → AllNames (ns ++ ds)
AllNames-append [] ds h k = k
AllNames-append (name ∷ ns) ds (Names.more is h) k = Names.more is (AllNames-append ns ds h k)

pub length-render-drop :
    (n : ℕ) (ds : List FilePath) → length (render root (drop n ds)) ≤ length (render root ds)
length-render-drop zero ds = omega arith
length-render-drop (suc n) [] = omega arith
length-render-drop (suc n) (d ∷ ds) = omega (
  arith,
  length-render-drop n ds,
  length-reverse_onto d (sep (render root ds)),
  length-sep-le (render root ds),
)

drop-drop : (n : ℕ) (ds : List FilePath) → drop n (drop 1 ds) ≡ drop (suc n) ds
drop-drop n (d ∷ ds) = refl
drop-drop zero [] = refl
drop-drop (suc n) [] = refl

-- where the names start that stand behind `n` times `..`
abbrev pub past : (n q s : ℕ) → ℕ
past n q s = if leb (s + 3 * n) q then s + 3 * n else q

-- The loop takes as many names from the current directory as `..` are pending, and `skip` passes over
-- them in the output.
pub climb-root :
    (n q s : ℕ) (ds : List FilePath)
    → AllNames ds
    → s ≤ q
    → s + 3 * n ≤ q + 1
    → climb n q (render root ds) s ≡ (render root (drop n ds), past n q s)
unfolding climb
climb-root zero q s ds h le near = ground arith
climb-root (suc n) q s ds h le near =
    let skip = if ltb (s + 2) q then s + 3 else s + 2 in
    let at : past n q skip ≡ past (suc n) q s = ground arith in
    rw (cut_root-drop ds h) (
      climb-root n q skip (drop 1 ds) (AllNames-drop 1 ds h) (ground arith) (ground arith)
      ∙ ap₂ (λ x y. (render root x, y)) (drop-drop n ds) at)
