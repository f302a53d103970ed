-- ===== src/Stdio.antt =====
-- `vasprintf` and `asprintf` of src/stdio_overrides.c, on the answers of `vsnprintf`.
use libc_override.Base.{
  ℕ, zero, suc, ◌+◌, ◌<◌, ◌^◌, ◌≡◌, refl, ap, List, [], ◌∷◌, ◌++◌, take, length, Option, none, some,
  arith, add_word,
}
use libc_override.Strings.{Malloc}

-- What `vsnprintf` returns for a size, `none` for a negative number, and what it writes.
pub record Written : Type 0 where
  pub ret : Option ℕ
  pub bytes : List ℕ

-- What the caller gets: -1 with `*s` as it was or NULL, or the answer of the second `vsnprintf`, `none`
-- for a negative number, with what stands in the block at `*s`.
pub data Printed : Type 0 where
  unwritten null : Printed
  printed : Option ℕ → (at : ℕ) → List ℕ → Printed

unfoldable pub into : (size : ℕ) → (vsnprintf : ℕ → Written) → Option ℕ → Printed
into size vsnprintf none = null
into size vsnprintf (some s) = let out = vsnprintf size in printed out.ret s out.bytes

unfoldable pub sized : Malloc → (vsnprintf : ℕ → Written) → Option ℕ → Printed
unfolding into
sized malloc vsnprintf none = unwritten
sized malloc vsnprintf (some len) = into (add_word len 1) vsnprintf (malloc (add_word len 1))

unfoldable pub vasprintf : Malloc → (vsnprintf : ℕ → Written) → Printed
unfolding sized
vasprintf malloc vsnprintf = let first = vsnprintf 0 in sized malloc vsnprintf first.ret

-- the same, with the arguments that `va_start` finds
unfoldable pub asprintf : Malloc → (vsnprintf : ℕ → Written) → Printed
unfolding vasprintf
asprintf malloc vsnprintf = vasprintf malloc vsnprintf

-- what `vsnprintf` writes of a text into so many bytes
abbrev pub cut : ℕ → List ℕ → List ℕ
cut zero text = []
cut (suc size) text = take size text ++ 0 ∷ []

-- `vsnprintf` prints the text for every size: it returns the length and writes what fits.
abbrev pub Prints : (ℕ → Written) → List ℕ → Type 0
Prints vsnprintf text =
    (size : ℕ) → vsnprintf size ≡ record { ret = some (length text); bytes = cut size text }

take-length : (text : List ℕ) → take (length text) text ≡ text
take-length [] = refl
take-length (c ∷ text) = ap (◌∷◌ c) (take-length text)

-- the whole text with its end in the block, or NULL for want of memory
abbrev pub whole : List ℕ → Option ℕ → Printed
whole text none = null
whole text (some s) = printed (some (length text)) s (text ++ 0 ∷ [])

into-whole :
    (vsnprintf : ℕ → Written) (text : List ℕ)
    → Prints vsnprintf text
    → (o : Option ℕ) → into (suc (length text)) vsnprintf o ≡ whole text o
unfolding into
into-whole vsnprintf text prints none = refl
into-whole vsnprintf text prints (some s) = rw (prints (suc (length text)), take-length text) refl

-- `vasprintf` and `asprintf` ask for a byte more than the text has. The block holds the whole text and
-- its end, and the length is returned.
pub vasprintf_lem :
    (malloc : Malloc) (vsnprintf : ℕ → Written) (text : List ℕ)
    → Prints vsnprintf text
    → length text < 2 ^ 31
    → (vasprintf malloc vsnprintf ≡ whole text (malloc (length text + 1)))
      × (asprintf malloc vsnprintf ≡ vasprintf malloc vsnprintf)
unfolding vasprintf asprintf
vasprintf_lem malloc vsnprintf text prints short = (
  (let first : (vsnprintf 0).ret ≡ some (length text) = ap (λ x. x.ret) (prints 0) in
      let size : add_word (length text) 1 ≡ suc (length text) = omega (arith, short) in
      let more : length text + 1 ≡ suc (length text) = omega arith in
      rw (first, size, more) (into-whole vsnprintf text prints (malloc (suc (length text))))),
  refl,
)
