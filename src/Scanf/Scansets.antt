-- ===== src/Scanf/Scansets.antt =====
-- Scansets are skipped as a whole.
use libc_override.Base.{
  ℕ, ◌≡◌, ◌≢◌, refl, Bool, true, false, ◌||◌, List, [], ◌∷◌, ◌++◌, arith, ◌==◌,
}
use libc_override.Scanf.Ascii
use libc_override.Scanf.Chars.{skip_to_close, skip_scanset_char}
use libc_override.Scanf.Printed.{print_if}

-- no character of a scanset's body closes it
abbrev pub AllPlain : List ℕ → Type 0
AllPlain [] = Unit {0}
AllPlain (c ∷ cs) = (c ≢ 0) × (c ≢ Ascii.close_bracket) × AllPlain cs

close-print :
    (body rest : List ℕ)
    → AllPlain body
    → skip_to_close (body ++ (Ascii.close_bracket ∷ rest)) ≡ Ascii.close_bracket ∷ rest
unfolding skip_to_close
close-print [] rest all = refl
close-print (c ∷ cs) rest (ne, no_close, all) =
    let inside : ((c == 0) || (c == Ascii.close_bracket)) ≡ false = ground (arith, ne, no_close) in
    rw inside (close-print cs rest all)

-- A scanset is skipped to behind its bracket: negated or not, and with a bracket as its first
-- character or not.
pub scanset-print :
    (negated bracket : Bool) (c : ℕ) (body rest : List ℕ)
    → AllPlain (c ∷ body)
    → c ≢ Ascii.caret
    → skip_scanset_char (
        print_if negated Ascii.caret
          (print_if bracket Ascii.close_bracket ((c ∷ body) ++ (Ascii.close_bracket ∷ rest))))
      ≡ rest
unfolding skip_scanset_char
scanset-print true true c body rest all ne = rw (close-print (c ∷ body) rest all) refl
scanset-print true false c body rest all ne =
    let other : (c == Ascii.close_bracket) ≡ false = ground (arith, all.1) in
    rw (other, close-print (c ∷ body) rest all) refl
scanset-print false true c body rest all ne = rw (close-print (c ∷ body) rest all) refl
scanset-print false false c body rest all ne =
    let other : (c == Ascii.close_bracket) ≡ false = ground (arith, all.1) in
    let plain : (c == Ascii.caret) ≡ false = ground (arith, ne) in
    rw (plain, other, close-print (c ∷ body) rest all) refl
