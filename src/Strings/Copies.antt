-- ===== src/Strings/Copies.antt =====
-- What the copies of src/string_overrides.c hold, and the block they ask for.
use libc_override.Base.{
  ℕ, zero, suc, ◌+◌, ◌*◌, ◌≤◌, ◌<◌, ◌^◌, ◌≡◌, refl, ap, List, [], ◌∷◌, ◌++◌, take, length, arith,
  add_word, mul_word,
}
use libc_override.Strings.{Malloc, strlen, strnlen, filled, strdup, strndup, wcsdup}

-- the characters of a string: none of them is its end
pub data IsText : List ℕ → Type 0 where
  empty : IsText []
  more : {c : ℕ} {s : List ℕ} → 0 < c → IsText s → IsText (c ∷ s)

strlen-text : (s rest : List ℕ) → IsText s → strlen (s ++ 0 ∷ rest) ≡ length s
unfolding strlen
strlen-text [] rest h = refl
strlen-text (c ∷ s) rest (more nonzero h) = ground (arith, strlen-text s rest h)

strnlen-text : (s rest : List ℕ) (n : ℕ) → IsText s → strnlen (s ++ 0 ∷ rest) n ≡ length (take n s)
unfolding strnlen
strnlen-text s rest zero h = refl
strnlen-text [] rest (suc n) h = refl
strnlen-text (c ∷ s) rest (suc n) (more nonzero h) = ground (arith, strnlen-text s rest n h)

take-text : (s rest : List ℕ) → take (length s + 1) (s ++ 0 ∷ rest) ≡ s ++ 0 ∷ []
take-text [] rest = refl
take-text (c ∷ s) rest =
    let size : suc (length s) + 1 ≡ suc (length s + 1) = omega arith in
    rw size (ap (◌∷◌ c) (take-text s rest))

take-front : (n : ℕ) (s rest : List ℕ) → take (length (take n s)) (s ++ rest) ≡ take n s
take-front zero s rest = refl
take-front (suc n) [] rest = refl
take-front (suc n) (c ∷ s) rest = ap (◌∷◌ c) (take-front n s rest)

length-take-le : (n : ℕ) (s : List ℕ) → length (take n s) ≤ length s
length-take-le zero s = omega arith
length-take-le (suc n) [] = omega arith
length-take-le (suc n) (c ∷ s) = omega (arith, length-take-le n s)

-- `strdup` and `wcsdup` copy a string with its end, `strndup` at most `n` characters of it and an end
-- behind them. Each asks for just what it writes, in bytes; wide characters have four.
pub copies_lem :
    (malloc : Malloc) (s rest : List ℕ) (n : ℕ)
    → IsText s
    → length s + 1 < 2 ^ 62
    → (strdup malloc (s ++ 0 ∷ rest) ≡ filled (malloc (length s + 1)) (s ++ 0 ∷ []))
      × (strndup malloc (s ++ 0 ∷ rest) n
          ≡ filled (malloc (length (take n s) + 1)) (take n s ++ 0 ∷ []))
      × (wcsdup malloc (s ++ 0 ∷ rest) ≡ filled (malloc ((length s + 1) * 4)) (s ++ 0 ∷ []))
unfolding strdup strndup wcsdup
copies_lem malloc s rest n h small =
    let short = length-take-le n s in
    let bytes : add_word (length s) 1 ≡ length s + 1 = omega (arith, small) in
    let wide : mul_word (length s + 1) 4 ≡ (length s + 1) * 4 = omega (arith, small) in
    let front : add_word (length (take n s)) 1 ≡ length (take n s) + 1 =
      omega (arith, small, short) in
    (
      rw (strlen-text s rest h, take-text s rest, bytes) refl,
      rw (strnlen-text s rest n h, take-front n s (0 ∷ rest), front) refl,
      rw (strlen-text s rest h, take-text s rest, bytes, wide) refl,
    )
