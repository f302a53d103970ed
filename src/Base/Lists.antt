-- ===== src/Base/Lists.antt =====
-- Lists measured and cut by native numbers, under the library's names.
use Prim.Native.Nat.{ℕ, zero, suc, ◌+◌}
use mathlib.Core.List.{List, [], ◌∷◌, ◌++◌}
pub use mathlib.Core.List.{append-nil}
use mathlib.Core.Path.{◌≡◌, refl, ◌∙◌}
use native.Mathlib.Omega.{arith}

module _ {ℓ} {A : Type ℓ} where
  abbrev pub length : List A → ℕ
  length [] = 0
  length (x ∷ xs) = suc (length xs)

  abbrev pub take : ℕ → List A → List A
  take zero xs = []
  take (suc n) [] = []
  take (suc n) (x ∷ xs) = x ∷ take n xs

  pub length-append : (xs ys : List A) → length (xs ++ ys) ≡ length xs + length ys
  length-append [] ys = omega arith
  length-append (x ∷ xs) ys = omega (arith, length-append xs ys)

  abbrev pub drop : ℕ → List A → List A
  drop zero xs = xs
  drop (suc n) [] = []
  drop (suc n) (x ∷ xs) = drop n xs

  -- `xs` turned round, in front of `ys`
  abbrev pub reverse_onto : List A → List A → List A
  reverse_onto [] ys = ys
  reverse_onto (x ∷ xs) ys = reverse_onto xs (x ∷ ys)

  abbrev pub reverse : List A → List A
  reverse xs = reverse_onto xs []

  pub length-reverse_onto : (xs ys : List A) → length (reverse_onto xs ys) ≡ length xs + length ys
  length-reverse_onto [] ys = omega arith
  length-reverse_onto (x ∷ xs) ys = omega (arith, length-reverse_onto xs (x ∷ ys))

  pub reverse_onto-reverse_onto :
      (xs ys zs : List A) → reverse_onto (reverse_onto xs ys) zs ≡ reverse_onto ys (xs ++ zs)
  reverse_onto-reverse_onto [] ys zs = refl
  reverse_onto-reverse_onto (x ∷ xs) ys zs = reverse_onto-reverse_onto xs (x ∷ ys) zs

  pub reverse_onto-append :
      (xs ys zs : List A) → reverse_onto (xs ++ ys) zs ≡ reverse_onto ys (reverse_onto xs zs)
  reverse_onto-append [] ys zs = refl
  reverse_onto-append (x ∷ xs) ys zs = reverse_onto-append xs ys (x ∷ zs)

  pub append-reverse_onto : (xs ys : List A) → reverse_onto xs ys ≡ reverse xs ++ ys
  append-reverse_onto xs ys = go xs [] ys
    where
      go : (xs zs ys : List A) → reverse_onto xs (zs ++ ys) ≡ reverse_onto xs zs ++ ys
      go [] zs ys = refl
      go (x ∷ xs) zs ys = go xs (x ∷ zs) ys

  pub reverse-reverse : (xs : List A) → reverse (reverse xs) ≡ xs
  reverse-reverse xs = reverse_onto-reverse_onto xs [] [] ∙ append-nil xs

  pub drop-append : (xs ys : List A) (n : ℕ) → length xs ≡ n → drop n (xs ++ ys) ≡ ys
  drop-append [] ys zero h = refl
  drop-append [] ys (suc n) h = absurd (omega (arith, h))
  drop-append (x ∷ xs) ys zero h = absurd (omega (arith, h))
  drop-append (x ∷ xs) ys (suc n) h = drop-append xs ys n (omega (arith, h))

  pub drop-length : (xs : List A) → drop (length xs) xs ≡ []
  drop-length [] = refl
  drop-length (x ∷ xs) = drop-length xs
